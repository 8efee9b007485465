-- ===== src/Gateway/Origin.antt =====
-- The check of a socket's origin (`origin_allowed` in src/gateway/mod.rs).
use kubevirt_webgui.Base.{
  ℕ, ◌==◌, ◌&&◌, ◌||◌, not, Bool, true, false, List, [], ◌∷◌, ◌++◌, Option, none, some, Str, str_eq,
  is_empty, any, has_char, to_lower, trim_end, strip_prefix, if◌then◌else◌,
}
pub mod Hosts
mod Tests

-- What the check reads of the handshake and of the settings.
pub record Request : Type 0 where
  pub origin : Option Str
  pub forwarded_host : Option Str
  pub host : Option Str

-- What follows the first separator, which is not empty.
unfoldable pub after : Str → Str → Option Str
after sep [] = none
after sep (c ∷ s) =
    let later = after sep s in
    elim (strip_prefix sep (c ∷ s)) [ some rest ↦ some rest | none ↦ later ]

-- What comes before the first separator, or all.
unfoldable pub before : Str → Str → Str
before sep [] = []
before sep (c ∷ s) =
    let rest = before sep s in elim (strip_prefix sep (c ∷ s)) [ some _ ↦ [] | none ↦ c ∷ rest ]

-- `split(sep).nth(1)`, or the whole text.
abbrev pub second_part : Str → Option Str → Str → Str
second_part sep none s = s
second_part sep (some rest) s = before sep rest

abbrev pub is_slash : ℕ → Bool
is_slash c = c == b'/'

-- Between the scheme's `://` and the slashes at the end.
unfoldable pub origin_host : Str → Str
unfolding after before trim_end
origin_host origin =
    let sep = b':' ∷ b'/' ∷ b'/' ∷ [] in
    trim_end is_slash (second_part sep (after sep origin) origin)

abbrev pub or_default : Option Str → Str
or_default none = []
or_default (some s) = s

abbrev pub or_else : Option Str → Option Str → Option Str
or_else none other = other
or_else (some s) other = some s

-- The host that the client or the proxy in front names.
abbrev pub named_host : Request → Str
named_host request = or_default (or_else request.forwarded_host request.host)

-- `eq_ignore_ascii_case`.
abbrev pub same_host : Str → Str → Bool
same_host a b = str_eq (to_lower a) (to_lower b)

unfoldable pub origin_allowed : List Str → Request → Bool
unfolding origin_host str_eq
origin_allowed allowed_origins request = elim request.origin [
  | none ↦ true
  | some origin ↦
      if any (λ allowed. str_eq allowed origin) allowed_origins
      then true
      else not (is_empty (named_host request))
        && same_host (origin_host origin) (named_host request)
]
