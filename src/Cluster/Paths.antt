-- ===== src/Cluster/Paths.antt =====
-- Addressing Kubernetes resources (src/cluster/paths.rs). The path of a resource is built from
-- values that a browser sent, each checked on the way. `urlencoding::encode` is a parameter.
pub mod Build
pub mod Segments
pub mod Total
pub mod Safety
pub mod Query
mod Tests
use kubevirt_webgui.Base.{
  ℕ, ◌≡◌, Bool, true, false, not, ◌&&◌, ◌||◌, List, [], ◌∷◌, ◌++◌, map, Option, none, some, Str,
  codes, byte_len, str_eq, is_empty, is_alnum, has_char, all, leb, ◌==◌, if◌then◌else◌, Result, ok,
  err, ◌>>=◌, split, split_once, join,
}
use kubevirt_webgui.Cluster.{ApiError, bad_request}

abbrev is_segment_char : ℕ → Bool
is_segment_char c =
    is_alnum c || c == b'-' || c == b'.' || c == b'_' || c == b':' || c == b'@' || c == b'+'

-- Whether `segment` is safe to place in an API path.
unfoldable pub valid_segment : Str → Bool
unfolding byte_len str_eq
valid_segment s =
    not (is_empty s)
    && leb (byte_len s) 253
    && not (str_eq s (codes "."))
    && not (str_eq s (codes ".."))
    && all is_segment_char s

unfoldable pub segment : Str → Str → Result ApiError Str
segment what value =
    if valid_segment value
    then ok value
    else err (
        bad_request
          (record { format = "`{what}` is not a valid name: {value:?}"; args = what ∷ value ∷ [] }))

pub record ResourceRef : Type 0 where
  pub api_version : Str
  pub resource : Str
  pub namespace : Option Str
  pub name : Option Str
  pub subresource : Option Str

-- `/api/v1` or `/apis/group/version`: the cases of the `match`.
base_of : Str → Option (Str × Str) → Result ApiError Str
base_of api_version none = do v ← segment (codes "apiVersion") api_version; ok (codes "/api/" ++ v)
base_of api_version (some (group, version)) = do
  g ← segment (codes "apiVersion") group
  v ← segment (codes "apiVersion") version
  ok (codes "/apis/" ++ (g ++ b'/' ∷ v))

unfoldable pub api_base : Str → Result ApiError Str
unfolding base_of segment
api_base api_version = base_of api_version (split_once b'/' api_version)

push_segment : Str → Str → Str → Result ApiError Str
push_segment what value path = do v ← segment what value; ok (path ++ b'/' ∷ v)

-- An empty namespace counts as none.
push_namespace : Option Str → Str → Result ApiError Str
push_namespace none path = ok path
push_namespace (some namespace) path =
    if is_empty namespace
    then ok path
    else (do v ← segment (codes "namespace") namespace; ok (path ++ (codes "/namespaces/" ++ v)))

push_name : Option Str → Str → Result ApiError Str
push_name none path = ok path
push_name (some name) path = push_segment (codes "name") name path

push_parts : List Str → Str → Result ApiError Str
push_parts [] path = ok path
push_parts (part ∷ parts) path = do
  longer ← push_segment (codes "subresource") part path
  push_parts parts longer

push_subresource : Option Str → Option Str → Str → Result ApiError Str
push_subresource none name path = ok path
push_subresource (some subresource) none path =
    err (bad_request (record { format = "a subresource needs an object name"; args = [] }))
push_subresource (some subresource) (some name) path = push_parts (split b'/' subresource) path

-- The API path, validated.
unfoldable pub path : ResourceRef → Result ApiError Str
unfolding api_base push_segment push_namespace push_name push_parts push_subresource segment
path r = do
  base ← api_base r.api_version
  scoped ← push_namespace r.namespace base
  collection ← push_segment (codes "resource") r.resource scoped
  object ← push_name r.name collection
  push_subresource r.subresource r.name object

append_query : Str → List Str → Str
append_query base [] = base
append_query base (pair ∷ more) = base ++ b'?' ∷ join (codes "&") (pair ∷ more)

-- Append query parameters, encoded.
module _ (encode : Str → Str) where
  pairs : List (Str × Option Str) → List Str
  pairs [] = []
  pairs ((key, none) ∷ params) = pairs params
  pairs ((key, some value) ∷ params) = (key ++ b'=' ∷ encode value) ∷ pairs params

  unfoldable pub with_query : Str → List (Str × Option Str) → Str
  unfolding pairs append_query join
  with_query base params = append_query base (pairs params)
