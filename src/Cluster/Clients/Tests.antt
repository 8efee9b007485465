-- ===== src/Cluster/Clients/Tests.antt =====
-- A client that is cached for a token.
use kubevirt_webgui.Base.{◌≡◌, refl, Str, codes, Result, ok}
use kubevirt_webgui.Base.Maps.{no_rows, insert}
use kubevirt_webgui.Cluster.Clients.{
  Credential, token, own, Config, as_credential, cache_key, Clients, client_for,
}
use kubevirt_webgui.Cluster.Clients.Laws.{
  IsCache, fresh, no_rows-IsCache, insert-IsCache, client_for-fresh,
}

-- Clients are their configurations, and a text is its own hash.
abbrev same : Str → Str
same s = s

abbrev build : Config → Result Str Config
build config = ok config

abbrev home : Config
home = record { cluster_url = codes "https://k8s"; auth_info = own }

abbrev ann : Credential
ann = token (codes "a")

unfoldable cached : Clients Config
cached = insert (cache_key same ann) (as_credential ann home, 5) no_rows

cached-IsCache : IsCache same build home cached
unfolding cached
cached-IsCache =
    insert-IsCache same build home ann (as_credential ann home) 5 no_rows refl
      (no_rows-IsCache same build home)

client_for-fresh_example :
    ((client_for same build home 7 ann cached).0
      ≡ fresh same build home (build (as_credential ann home)))
    × IsCache same build home (client_for same build home 7 ann cached).1
client_for-fresh_example = client_for-fresh same build home 7 ann cached (λ s t e. e) cached-IsCache
