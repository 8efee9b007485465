-- ===== src/Auth/Tests.antt =====
-- A server that lets people sign in with its own identity.
use kubevirt_webgui.Base.{
  ℕ, ◌≡◌, refl, sym, ap, ◌<◌, ◌≤◌, true, List, [], ◌∷◌, Option, none, some, Str, codes, str_eq,
  split, Result, ok, err,
}
use kubevirt_webgui.Base.Maps.{no_rows, retain}
use kubevirt_webgui.Base.Json.{Json, string, object, empty, member, field, field_of, find}
use kubevirt_webgui.Cluster.{ApiError}
use kubevirt_webgui.Cluster.Clients.{Credential, token, server, own, Config, Clients, client_for}
use kubevirt_webgui.Cluster.Clients.Laws.{IsCache, no_rows-IsCache}
use kubevirt_webgui.Auth.{Claims, Session}
use kubevirt_webgui.Auth.Whoami.{whoami}
use kubevirt_webgui.Auth.Login.{Encryption, Settings, issue, login, resume, session_expired}
use kubevirt_webgui.Auth.Accepted.{IsLogin, login-IsLogin}
use kubevirt_webgui.Auth.Resumed.{IsEncryption, IsLive, resume-login, resume-IsLive}

-- Clients are their configurations, and a text is its own hash.
abbrev same : Str → Str
same s = s

abbrev build : Config → Result Str Config
build config = ok config

abbrev home : Config
home = record { cluster_url = codes "https://k8s"; auth_info = own }

abbrev decode : Str → Option Json
decode s = none

abbrev answer : Json
answer = object (
    member (codes "status")
      (object (
        member (codes "userInfo")
          (object (member (codes "username") (string (codes "admin")) empty)) empty))
      empty)

abbrev post : Config → Str → Json → Result ApiError Json
post kube url body = ok answer

abbrev settings : Settings
settings = record { allow_server_identity = true; session_ttl = 300 }

-- Tickets show what they seal, and only of the server's identity.
abbrev seal : Credential → Str → List Str → Option Str → Str → ℕ → ℕ → Result Str Str
seal server [] [] none username issued expires = ok (issued ∷ expires ∷ username)
seal _ _ _ _ _ _ _ = err (codes "not sealed")

abbrev claims_of : Str → ℕ → ℕ → Claims
claims_of username issued expires = record {
  credential = server;
  user = record { username = username; uid = []; groups = []; home_namespace = none };
  issued = issued;
  expires = expires;
}

abbrev open_ticket : Str → Option Claims
open_ticket (issued ∷ expires ∷ username) = some (claims_of username issued expires)
open_ticket _ = none

abbrev glass : Encryption
glass = record {
  encrypt_json = λ c.
      seal c.credential c.user.uid c.user.groups c.user.home_namespace c.user.username c.issued
        c.expires;
  decrypt_json = open_ticket;
}

abbrev sealed_ok : Str → Result Str Str
sealed_ok = ok

ticket_injective : (s t : Str) → sealed_ok s ≡ sealed_ok t → s ≡ t
ticket_injective s t e = cc

opened :
    (credential : Credential) (uid : Str) (groups : List Str) (ns : Option Str) (username : Str)
    → (issued expires : ℕ) (ticket : Str)
    → seal credential uid groups ns username issued expires ≡ ok ticket
    → open_ticket ticket
      ≡ some (record {
        credential = credential;
        user = record { username = username; uid = uid; groups = groups; home_namespace = ns };
        issued = issued;
        expires = expires;
      })
opened server [] [] none username issued expires ticket e =
    ap open_ticket (sym (ticket_injective (issued ∷ expires ∷ username) ticket e))
opened server [] [] (some ns) username issued expires ticket e = cc
opened server [] (g ∷ gs) ns username issued expires ticket e = cc
opened server (u ∷ uid) groups ns username issued expires ticket e = cc
opened (token t) uid groups ns username issued expires ticket e = cc

glass-IsEncryption : IsEncryption glass
glass-IsEncryption c ticket e =
    opened c.credential c.user.uid c.user.groups c.user.home_namespace c.user.username c.issued
      c.expires ticket e

abbrev ticket : Str
ticket = 100 ∷ 400 ∷ codes "admin"

abbrev signed_in : Session Config
signed_in = record {
  user = record { username = codes "admin"; uid = []; groups = []; home_namespace = none };
  credential = server;
  kube = home;
  expires = 400;
}

abbrev logged_in : Result ApiError (Str × Session Config) × Clients Config
unfolding login
logged_in = login same build home decode post settings (some glass) 5 100 server no_rows

signs_in : logged_in ≡ (ok (ticket, signed_in), logged_in.1)
unfolding logged_in login issue whoami client_for str_eq split field field_of find retain
signs_in = refl

login-IsLogin_example :
    IsLogin decode post settings (some glass) same build home 100 server ticket signed_in
unfolding logged_in
login-IsLogin_example =
    login-IsLogin decode post settings (some glass) same build home 5 100 server no_rows ticket
      signed_in logged_in.1 (λ s t e. e) (no_rows-IsCache same build home) signs_in

resume-login_example :
    (399 < signed_in.expires
      → (resume same build home settings (some glass) 6 399 ticket no_rows).0 ≡ ok signed_in)
    × (signed_in.expires ≤ 399
        → resume same build home settings (some glass) 6 399 ticket no_rows
          ≡ (err session_expired, no_rows))
    × IsCache same build home (resume same build home settings (some glass) 6 399 ticket no_rows).1
unfolding logged_in
resume-login_example =
    resume-login same build home decode post settings glass 5 100 server no_rows ticket signed_in
      logged_in.1 (λ s t e. e) glass-IsEncryption (no_rows-IsCache same build home) signs_in 6 399
      no_rows (no_rows-IsCache same build home)

abbrev came_back : Result ApiError (Session Config) × Clients Config
unfolding resume
came_back = resume same build home settings (some glass) 6 399 ticket no_rows

comes_back : came_back ≡ (ok signed_in, came_back.1)
unfolding came_back resume client_for retain
comes_back = refl

resume-IsLive_example : IsLive same build home settings (some glass) 399 ticket signed_in
unfolding came_back
resume-IsLive_example =
    resume-IsLive same build home settings (some glass) 6 399 ticket no_rows signed_in came_back.1
      (λ s t e. e) (no_rows-IsCache same build home) comes_back
