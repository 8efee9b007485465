-- ===== src/Auth.antt =====
-- Signing in with the cluster's own authentication (src/auth.rs). The API server, the encryption of
-- tickets and the decoding of a token's payload are arguments; `C` is the type of the clients.
use Prim.Native.String.{String}
use kubevirt_webgui.Base.{
  ℕ, ◌+◌, ◌*◌, Bool, true, false, not, ◌&&◌, ◌||◌, ◌==◌, List, [], ◌∷◌, ◌++◌, Option, none, some,
  Str, codes, str_eq, is_empty, byte_len, trim, trim_end, split, ltb, leb, if◌then◌else◌, Result,
  ok, err, ◌>>=◌, Message,
}
use kubevirt_webgui.Base.Json.{
  Json, null, string, object, empty, member, field, field_of, as_str, as_list, or_null,
}
use kubevirt_webgui.Cluster.{ApiError}
use kubevirt_webgui.Cluster.Clients.{Credential, token, server, Config, Clients, client_for}
pub mod Whoami
pub mod Login
pub mod Accepted
pub mod Resumed
mod Tests

-- Who the API server says a credential belongs to.
pub record UserInfo : Type 0 where
  pub username : Str
  pub uid : Str
  pub groups : List Str
  pub home_namespace : Option Str

-- What a ticket seals.
pub record Claims : Type 0 where
  pub credential : Credential
  pub user : UserInfo
  pub issued : ℕ
  pub expires : ℕ

pub record Session (C : Type 0) : Type 0 where
  pub user : UserInfo
  pub credential : Credential
  pub kube : C
  pub expires : ℕ

abbrev pub is_expired : {C : Type 0} → Session C → ℕ → Bool
is_expired s now = leb s.expires now

abbrev pub failure : ℕ → Str → Message → ApiError
failure status reason message = record { status = status; reason = reason; message = message }

abbrev pub plain : String → Message
plain text = record { format = text; args = [] }

abbrev pub rejected : ApiError
rejected = failure 401 (codes "Unauthorized") (plain "the cluster did not accept that token")
