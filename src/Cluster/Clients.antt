-- ===== src/Cluster/Clients.antt =====
-- The clients of the cluster, one for each credential (src/cluster/mod.rs). The hash, and the building of
-- a client from its configuration, are arguments; `C` is the type of the clients.
use kubevirt_webgui.Base.{
  ℕ, ◌-◌, ◌*◌, ◌^◌, ◌≡◌, Bool, List, [], ◌∷◌, ◌++◌, Option, none, some, Str, codes, ltb, Result, ok,
  err,
}
use kubevirt_webgui.Base.Maps.{Table, insert, retain}
use kubevirt_webgui.Cluster.{ApiError}
pub mod Laws
mod Tests

pub data Credential : Type 0 where
  token : Str → Credential
  server : Credential

-- Whose identity a configuration carries: that of the kubeconfig, or a bearer token.
pub data AuthInfo : Type 0 where
  own : AuthInfo
  bearer : Str → AuthInfo

pub record Config : Type 0 where
  pub cluster_url : Str
  pub auth_info : AuthInfo

abbrev pub transport : Str → ApiError
transport e = record {
  status = 502;
  reason = codes "ServiceUnavailable";
  message = record { format = "could not build a client: {e}"; args = e ∷ [] };
}

-- In nanoseconds.
abbrev pub client_idle : ℕ
client_idle = 15 * 60 * 10 ^ 9

unfoldable pub as_credential : Credential → Config → Config
as_credential (token t) config = record config { auth_info = bearer t }
as_credential server config = config

module _ (hash : Str → Str) where
  unfoldable pub cache_key : Credential → Str
  cache_key (token t) = hash (codes "token:" ++ t)
  cache_key server = hash (codes "server")

-- A client and when it was last used.
abbrev pub Clients : Type 0 → Type 0
Clients C = Table (C × ℕ)

module _ {C : Type 0} where
  abbrev pub is_used : ℕ → C × ℕ → Bool
  is_used now (client, used) = ltb (now - used) client_idle

  unfoldable pub keep_built : Str → ℕ → Result Str C → Clients C → Result ApiError C × Clients C
  unfolding insert
  keep_built key now (err e) clients = (err (transport e), clients)
  keep_built key now (ok client) clients = (ok client, insert key (client, now) clients)

  unfoldable pub or_build :
      Str → ℕ → Result Str C → Option (C × ℕ) → Clients C → Result ApiError C × Clients C
  unfolding insert keep_built
  or_build key now built none clients = keep_built key now built clients
  or_build key now built (some (client, used)) clients =
      (ok client, insert key (client, now) clients)

  module _ (hash : Str → Str) (build : Config → Result Str C) (base : Config) where
    unfoldable pub client_for : ℕ → Credential → Clients C → Result ApiError C × Clients C
    unfolding cache_key as_credential retain or_build
    client_for now credential clients =
        let key = cache_key hash credential in
        let live = retain (is_used now) clients in
        or_build key now (build (as_credential credential base)) (live key) live
