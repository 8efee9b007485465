-- ===== src/Auth/Login.antt =====
-- Tickets: signing in, resuming and renewing.
use kubevirt_webgui.Base.{
  ℕ, ◌+◌, ◌*◌, Bool, true, false, not, ◌&&◌, ◌||◌, Option, Str, codes, is_empty, byte_len, trim,
  ltb, leb, if◌then◌else◌, Result, ok, err, ◌>>=◌, or_fail, [], ◌∷◌,
}
use kubevirt_webgui.Base.Json.{Json}
use kubevirt_webgui.Cluster.{ApiError}
use kubevirt_webgui.Cluster.Clients.{Credential, token, server, Config, Clients, client_for}
use kubevirt_webgui.Auth.{UserInfo, Claims, Session, failure, plain}
use kubevirt_webgui.Auth.Whoami.{whoami}

-- The application's encryption of claims.
pub record Encryption : Type 0 where
  pub encrypt_json : Claims → Result Str Str
  pub decrypt_json : Str → Option Claims

pub record Settings : Type 0 where
  pub allow_server_identity : Bool
  pub session_ttl : ℕ

abbrev pub is_server : Credential → Bool
is_server (token t) = false
is_server server = true

-- The server's identity, where it is not offered.
abbrev pub is_withheld : Settings → Credential → Bool
is_withheld settings credential = is_server credential && not settings.allow_server_identity

unfoldable pub is_no_token : Credential → Bool
unfolding trim byte_len
is_no_token (token t) = is_empty (trim t) || ltb (16 * 1024) (byte_len t)
is_no_token server = false

abbrev pub withheld : ApiError
withheld =
    failure 403 (codes "Forbidden") (plain "signing in with the server's identity is disabled")

abbrev pub no_token : ApiError
no_token = failure 401 (codes "Unauthorized") (plain "a token is required")

abbrev pub starting : ApiError
starting = failure 503 (codes "ServiceUnavailable") (plain "the server is still starting")

abbrev pub no_ticket : Str → ApiError
no_ticket e =
    failure 500 (codes "InternalError")
      (record { format = "could not issue a ticket: {}"; args = e ∷ [] })

abbrev pub invalid : ApiError
invalid = failure 401 (codes "Unauthorized") (plain "the ticket is invalid; sign in again")

abbrev pub session_expired : ApiError
session_expired =
    failure 401 (codes "Unauthorized") (plain "the session has expired; sign in again")

abbrev pub disabled : ApiError
disabled = failure 401 (codes "Unauthorized") (plain "server identity sign-in has been disabled")

abbrev pub as_ticket : Result Str Str → Result ApiError Str
as_ticket (ok ticket) = ok ticket
as_ticket (err e) = err (no_ticket e)

abbrev pub sealed : Encryption → Claims → Result ApiError Str
sealed crypt claims = as_ticket (crypt.encrypt_json claims)

-- Whom the API server accepts gets a ticket with an end.
abbrev pub claims_for : Settings → ℕ → Credential → UserInfo → Claims
claims_for settings now credential user = record {
  credential = credential;
  user = user;
  issued = now;
  expires = now + settings.session_ttl;
}

-- What a ticket is good for now.
unfoldable pub admitted : Settings → ℕ → Claims → Result ApiError Claims
admitted settings now claims =
    if leb claims.expires now
    then err session_expired
    else if is_withheld settings claims.credential
    then err disabled
    else ok claims

unfoldable pub unsealed : Settings → Option Encryption → ℕ → Str → Result ApiError Claims
unfolding admitted
unsealed settings crypt now ticket = do
  c ← or_fail crypt starting
  claims ← or_fail (c.decrypt_json ticket) invalid
  admitted settings now claims

module _ {C : Type 0} where
  abbrev pub session_for : Claims → C → Session C
  session_for claims kube = record {
    user = claims.user;
    credential = claims.credential;
    kube = kube;
    expires = claims.expires;
  }

  unfoldable pub issue :
      (Str → Option Json)
      → (C → Str → Json → Result ApiError Json)
      → Settings
      → Option Encryption
      → ℕ
      → Credential
      → C
      → Result ApiError (Str × Session C)
  unfolding whoami
  issue decode post settings crypt now credential kube = do
    user ← whoami decode post kube credential
    c ← or_fail crypt starting
    ticket ← sealed c (claims_for settings now credential user)
    ok (ticket, session_for (claims_for settings now credential user) kube)

  abbrev pub with_client :
      {A : Type 0}
      → (C → Result ApiError A)
      → Result ApiError C × Clients C
      → Result ApiError A × Clients C
  with_client then_do (err e, clients) = (err e, clients)
  with_client then_do (ok kube, clients) = (then_do kube, clients)

  -- `at` is the instant of the client's use, `now` the time of the clock in seconds.
  module _ (hash : Str → Str) (build : Config → Result Str C) (base : Config)
      (decode : Str → Option Json) (post : C → Str → Json → Result ApiError Json)
      (settings : Settings) (crypt : Option Encryption) where
    unfoldable pub login :
        ℕ → ℕ → Credential → Clients C → Result ApiError (Str × Session C) × Clients C
    unfolding client_for issue is_no_token
    login at now credential clients =
        if is_withheld settings credential
        then (err withheld, clients)
        else if is_no_token credential
        then (err no_token, clients)
        else with_client (issue decode post settings crypt now credential)
            (client_for hash build base at credential clients)

    unfoldable pub renew :
        ℕ → ℕ → Session C → Clients C → Result ApiError (Str × Session C) × Clients C
    unfolding login
    renew at now session clients = login at now session.credential clients

  module _ (hash : Str → Str) (build : Config → Result Str C) (base : Config) (settings : Settings)
      (crypt : Option Encryption) where
    unfoldable pub resumed :
        ℕ → Result ApiError Claims → Clients C → Result ApiError (Session C) × Clients C
    unfolding client_for
    resumed at (err e) clients = (err e, clients)
    resumed at (ok claims) clients =
        with_client (λ kube. ok (session_for claims kube))
          (client_for hash build base at claims.credential clients)

    unfoldable pub resume : ℕ → ℕ → Str → Clients C → Result ApiError (Session C) × Clients C
    unfolding resumed unsealed
    resume at now ticket clients = resumed at (unsealed settings crypt now ticket) clients
