-- ===== src/Rpc.antt =====
-- The methods and topics that the gateway serves (src/rpc.rs): their registration by extensions, and
-- the guards of a call. `H` is the type of the handlers. The notice that is sent on a session that has
-- expired is left out.
pub mod Installs
pub mod Lookups
pub mod Calls
pub mod Served
pub mod Guards
mod Tests
use kubevirt_webgui.Base.{
  ℕ, ◌+◌, ◌*◌, ◌^◌, Bool, true, false, not, List, [], ◌∷◌, Option, none, some, Str, codes, str_eq,
  all, keep, map, first, Result, ok, err, ◌>>=◌, or_fail, Message, leb, join, if◌then◌else◌,
}
use kubevirt_webgui.Base.Sets.{str_ord, of_list}
use kubevirt_webgui.Cluster.{ApiError}
use kubevirt_webgui.Cluster.Discovery.{Discovery, Cache, get, refresh_unless_recent, serves}

pub record RpcError : Type 0 where
  pub status : ℕ
  pub code : Str
  pub message : Message

abbrev pub not_found : Message → RpcError
not_found m = record { status = 404; code = codes "NotFound"; message = m }

abbrev pub unauthorized : RpcError
unauthorized = record {
  status = 401;
  code = codes "Unauthorized";
  message = record { format = "sign in first"; args = [] };
}

abbrev pub expired_error : RpcError
expired_error = record {
  status = 401;
  code = codes "Unauthorized";
  message = record { format = "the session has expired; sign in again"; args = [] };
}

abbrev pub of_api_error : ApiError → RpcError
of_api_error e = record { status = e.status; code = e.reason; message = e.message }

-- What the session of a connection is asked for: who it is, and its end.
pub record Session : Type 0 where
  pub user : Str
  pub expires : ℕ

abbrev pub session_of : Option Session → ℕ → Result RpcError Session
session_of none now = err unauthorized
session_of (some s) now = if leb s.expires now then err expired_error else ok s

pub record ExtensionManifest : Type 0 where
  pub id : Str
  pub name : Str
  pub version : Str
  pub description : Str
  pub requires : List Str
  pub methods : List Str
  pub topics : List Str

module _ (H : Type 0) where
  pub record MethodEntry : Type 0 where
    pub handler : H
    pub public : Bool
    pub extension : Str

  pub record TopicEntry : Type 0 where
    pub handler : H
    pub extension : Str

-- Maps as lists of their entries, one for each key.
module _ {V : Type 0} where
  abbrev pub value_of : Option (Str × V) → Option V
  value_of none = none
  value_of (some (k, v)) = some v

  unfoldable pub lookup : Str → List (Str × V) → Option V
  lookup key [] = none
  lookup key ((k, v) ∷ rest) = let later = lookup key rest in if str_eq k key then some v else later

  unfoldable pub put : Str → V → List (Str × V) → List (Str × V)
  put key v rows = (key, v) ∷ keep (λ (row : Str × V). not (str_eq row.0 key)) rows

pub record Registry (H : Type 0) : Type 0 where
  pub methods : List (Str × MethodEntry H)
  pub topics : List (Str × TopicEntry H)
  pub extensions : List (Str × ExtensionManifest)
  pub current : Str

-- What an extension registers, in order.
pub data Registration (H : Type 0) : Type 0 where
  method public_method topic : Str → H → Registration H

module _ {H : Type 0} where
  unfoldable pub add_method : Str → H → Bool → Registry H → Registry H
  unfolding put
  add_method name handler public r = record r {
    methods =
        put name (record { handler = handler; public = public; extension = r.current }) r.methods;
  }

  unfoldable pub add_topic : Str → H → Registry H → Registry H
  unfolding put
  add_topic name handler r = record r {
    topics = put name (record { handler = handler; extension = r.current }) r.topics;
  }

  unfoldable pub register : List (Registration H) → Registry H → Registry H
  unfolding add_method add_topic
  register [] r = r
  register (method name handler ∷ rest) r = register rest (add_method name handler false r)
  register (public_method name handler ∷ rest) r = register rest (add_method name handler true r)
  register (topic name handler ∷ rest) r = register rest (add_topic name handler r)

  -- The names of an extension's methods and topics, sorted.
  unfoldable pub methods_of : Str → List (Str × MethodEntry H) → List Str
  unfolding of_list
  methods_of id rows = of_list (
      map (λ (row : Str × MethodEntry H). row.0)
        (keep (λ (row : Str × MethodEntry H). str_eq row.1.extension id) rows))

  unfoldable pub topics_of : Str → List (Str × TopicEntry H) → List Str
  unfolding of_list
  topics_of id rows = of_list (
      map (λ (row : Str × TopicEntry H). row.0)
        (keep (λ (row : Str × TopicEntry H). str_eq row.1.extension id) rows))

  abbrev pub with_names : Registry H → ExtensionManifest → ExtensionManifest
  unfolding methods_of topics_of
  with_names r m = record m {
    methods = methods_of m.id r.methods;
    topics = topics_of m.id r.topics;
  }

  unfoldable pub install : ExtensionManifest → List (Registration H) → Registry H → Registry H
  unfolding register with_names put
  install manifest entries r =
      let after = register entries (record r { current = manifest.id }) in
      record after { extensions = put manifest.id (with_names after manifest) after.extensions }
