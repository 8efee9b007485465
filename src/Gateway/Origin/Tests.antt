-- ===== src/Gateway/Origin/Tests.antt =====
-- Origins of this site, of a listed one and of another.
use kubevirt_webgui.Base.{◌≡◌, ◌⊎◌, ◌↔◌, refl, true, false, List, [], ◌∷◌, none, some, Str, codes}
use kubevirt_webgui.Gateway.Origin.{Request, origin_allowed, origin_host}
use kubevirt_webgui.Gateway.Origin.Hosts.{IsListed, IsNamed, origin_allowed_iff}

abbrev from : Str → Request
from origin = record {
  origin = some origin;
  forwarded_host = none;
  host = some (codes "gui.example.org:8443");
}

abbrev listed : List Str
listed = codes "https://portal.example.org" ∷ []

own_site : origin_allowed listed (from (codes "https://GUI.example.org:8443")) ≡ true
unfolding origin_allowed
own_site = refl

other_site : origin_allowed listed (from (codes "https://evil.example.org")) ≡ false
unfolding origin_allowed
other_site = refl

no_page : origin_allowed [] (record (from []) { origin = none }) ≡ true
unfolding origin_allowed
no_page = refl

-- Of an origin with several separators, the part between the first two counts.
middle_part : origin_host (codes "a://b//://c") ≡ codes "b"
unfolding origin_host
middle_part = refl

origin_allowed_iff_example :
    (origin_allowed listed (from (codes "https://GUI.example.org:8443")) ≡ true) ↔ (
      IsListed (codes "https://GUI.example.org:8443") listed
      ⊎ IsNamed (from []).forwarded_host (from []).host (codes "GUI.example.org:8443"))
origin_allowed_iff_example =
    origin_allowed_iff listed (from (codes "https://GUI.example.org:8443")) (codes "https")
      (codes "GUI.example.org:8443") refl refl refl
