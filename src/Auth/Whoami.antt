-- ===== src/Auth/Whoami.antt =====
-- Asking the API server who a credential is.
use kubevirt_webgui.Base.{
  ℕ, Bool, ◌&&◌, ◌||◌, ◌==◌, List, [], ◌∷◌, Option, none, some, Str, codes, str_eq, is_empty,
  trim_end, split, if◌then◌else◌, Result, ok, err, ◌>>=◌,
}
use kubevirt_webgui.Base.Json.{
  Json, string, object, empty, member, field, field_of, as_str, as_list, or_null,
}
use kubevirt_webgui.Cluster.{ApiError}
use kubevirt_webgui.Cluster.Clients.{Credential, token, server}
use kubevirt_webgui.Auth.{UserInfo, rejected}

abbrev pub review_url : Str
review_url = codes "/apis/authentication.k8s.io/v1/selfsubjectreviews"

abbrev pub review : Json
review = object (
    member (codes "apiVersion") (string (codes "authentication.k8s.io/v1"))
      (member (codes "kind") (string (codes "SelfSubjectReview")) empty))

abbrev pub probe_url : Str
probe_url = codes "/apis/authorization.k8s.io/v1/selfsubjectrulesreviews"

abbrev pub probe : Json
probe = object (
    member (codes "apiVersion") (string (codes "authorization.k8s.io/v1")) (
      member (codes "kind") (string (codes "SelfSubjectRulesReview")) (
        member (codes "spec") (object (member (codes "namespace") (string (codes "default")) empty))
          empty)))

abbrev pub or_empty : Option Str → Str
or_empty none = []
or_empty (some s) = s

abbrev pub texts_of : List Json → List Str
texts_of [] = []
texts_of (string s ∷ rest) = s ∷ texts_of rest
texts_of (v ∷ rest) = texts_of rest

unfoldable pub reviewed : Json → UserInfo
unfolding field field_of
reviewed response =
    let info = or_null (field_of (codes "userInfo") (field (codes "status") response)) in
    record {
      username = or_empty (as_str (field (codes "username") info));
      uid = or_empty (as_str (field (codes "uid") info));
      groups = texts_of (as_list (field (codes "groups") info));
      home_namespace = none;
    }

abbrev pub unknown : Str
unknown = codes "(unknown)"

abbrev pub unknown_user : UserInfo
unknown_user = record { username = unknown; uid = []; groups = []; home_namespace = none }

abbrev pub probed : Result ApiError Json → Result ApiError UserInfo
probed (ok answer) = ok unknown_user
probed (err e) = if e.status == 401 then err rejected else err e

-- Older API servers lack the review: any request then proves the token.
unfoldable pub identified : Result ApiError Json → Result ApiError Json → Result ApiError UserInfo
unfolding reviewed
identified (ok response) probing = ok (reviewed response)
identified (err e) probing =
    if e.status == 401
    then err rejected
    else if e.status == 404 || e.status == 403
    then probed probing
    else err e

abbrev pub second : List Str → Option Str
second (a ∷ b ∷ rest) = some b
second _ = none

abbrev pub is_padding : ℕ → Bool
is_padding c = c == b'='

unfoldable pub payload : (Str → Option Json) → Option Str → Option Json
unfolding trim_end
payload decode none = none
payload decode (some part) = decode (trim_end is_padding part)

-- `decode` is base64 and JSON.
unfoldable pub jwt_claims : (Str → Option Json) → Str → Option Json
unfolding payload split
jwt_claims decode t = payload decode (second (split b'.' t))

abbrev pub or_name : Option Str → UserInfo → UserInfo
or_name none user = user
or_name (some sub) user = record user { username = sub }

unfoldable pub named : Json → UserInfo → UserInfo
unfolding field
named claims user =
    if is_empty user.username || str_eq user.username unknown
    then or_name (as_str (field (codes "sub") claims)) user
    else user

unfoldable pub with_claims : Option Json → UserInfo → UserInfo
unfolding named field field_of
with_claims none user = user
with_claims (some claims) user = record (named claims user) {
  home_namespace = as_str (field_of (codes "namespace") (field (codes "kubernetes.io") claims));
}

unfoldable pub of_token : (Str → Option Json) → Credential → UserInfo → UserInfo
unfolding jwt_claims with_claims
of_token decode (token t) user = with_claims (jwt_claims decode t) user
of_token decode server user = user

-- `system:serviceaccount:<namespace>:<name>`
unfoldable pub account_namespace : List Str → Option Str
unfolding str_eq
account_namespace (a ∷ b ∷ c ∷ d ∷ []) =
    if str_eq a (codes "system") && str_eq b (codes "serviceaccount") then some c else none
account_namespace _ = none

unfoldable pub or_account : Option Str → Str → Option Str
unfolding account_namespace split
or_account (some ns) username = some ns
or_account none username = account_namespace (split b':' username)

unfoldable pub described : (Str → Option Json) → Credential → UserInfo → UserInfo
unfolding of_token or_account
described decode credential user =
    let known = of_token decode credential user in
    record known { home_namespace = or_account known.home_namespace known.username }

module _ {C : Type 0} (decode : Str → Option Json)
    (post : C → Str → Json → Result ApiError Json) where
  unfoldable pub whoami : C → Credential → Result ApiError UserInfo
  unfolding identified described
  whoami kube credential = do
    user ← identified (post kube review_url review) (post kube probe_url probe)
    ok (described decode credential user)
