-- ===== src/Auth/Resumed.antt =====
-- What a ticket gives back.
use kubevirt_webgui.Base.{
  ℕ, ◌≤◌, ◌<◌, ◌≡◌, refl, ap, sym, ◌∙◌, subst, Bool, true, false, Option, some, Str, leb,
  if◌then◌else◌, Result, ok, err, ◌>>=◌, >>=-eq-ok, or_fail, arith,
}
use kubevirt_webgui.Base.Json.{Json}
use kubevirt_webgui.Cluster.{ApiError}
use kubevirt_webgui.Cluster.Clients.{Credential, Config, as_credential, Clients, client_for}
use kubevirt_webgui.Cluster.Clients.Laws.{IsCollisionFree, IsCache, fresh, client_for-fresh}
use kubevirt_webgui.Auth.{Claims, Session}
use kubevirt_webgui.Auth.Login.{
  Encryption, Settings, is_withheld, starting, invalid, session_expired, disabled, session_for,
  claims_for, admitted, unsealed, with_client, login, resumed, resume,
}
use kubevirt_webgui.Auth.Accepted.{or_fail-ok, login-IsIssue}

admitted-live :
    (settings : Settings) (now : ℕ) (claims : Claims)
    → now < claims.expires
    → is_withheld settings claims.credential ≡ false
    → admitted settings now claims ≡ ok claims
unfolding admitted
admitted-live settings now claims h w = rw w (ground arith)

admitted-late :
    (settings : Settings) (now : ℕ) (claims : Claims)
    → claims.expires ≤ now
    → admitted settings now claims ≡ err session_expired
unfolding admitted
admitted-late settings now claims h = ground arith

-- What is decrypted is what was encrypted.
abbrev pub IsEncryption : Encryption → Type 0
IsEncryption c =
    (claims : Claims) (ticket : Str)
    → c.encrypt_json claims ≡ ok ticket
    → c.decrypt_json ticket ≡ some claims

unsealed-same :
    (settings : Settings) (c : Encryption) (now : ℕ) (ticket : Str) (claims : Claims)
    → c.decrypt_json ticket ≡ some claims
    → unsealed settings (some c) now ticket ≡ admitted settings now claims
unfolding unsealed
unsealed-same settings c now ticket claims e =
    ap (λ o. or_fail o invalid >>= admitted settings now) e

some_injective : (a b : Encryption) → some a ≡ some b → a ≡ b
some_injective a b e = cc

with_client-ok :
    {C A : Type 0} (then_do : C → Result ApiError A) (got : Result ApiError C × Clients C)
    (kube : C)
    → got.0 ≡ ok kube
    → (with_client then_do got).0 ≡ then_do kube
with_client-ok then_do (err e, clients) kube p = absurd (cc)
with_client-ok then_do (ok k, clients) kube p = cc

with_client-inv :
    {C A : Type 0} (then_do : C → Result ApiError A) (got : Result ApiError C × Clients C) (a : A)
    → (after : Clients C) → with_client then_do got ≡ (ok a, after)
    → (kube : C) × (got.0 ≡ ok kube) × (then_do kube ≡ ok a)
with_client-inv then_do (err e, clients) a after p = absurd (cc)
with_client-inv then_do (ok k, clients) a after p = (k, refl, ap (λ q. q.0) p)

with_client-IsCache :
    {C A : Type 0} (hash : Str → Str) (build : Config → Result Str C) (base : Config)
    (then_do : C → Result ApiError A) (got : Result ApiError C × Clients C)
    → IsCache hash build base got.1
    → IsCache hash build base (with_client then_do got).1
with_client-IsCache hash build base then_do (err e, clients) h = h
with_client-IsCache hash build base then_do (ok k, clients) h = h

resumed-IsCache :
    {C : Type 0} (hash : Str → Str) (build : Config → Result Str C) (base : Config)
    (settings : Settings) (crypt : Option Encryption) (at : ℕ) (u : Result ApiError Claims)
    (clients : Clients C)
    → IsCollisionFree hash
    → IsCache hash build base clients
    → IsCache hash build base (resumed hash build base settings crypt at u clients).1
unfolding resumed
resumed-IsCache hash build base settings crypt at (err e) clients free cached = cached
resumed-IsCache hash build base settings crypt at (ok claims) clients free cached =
    with_client-IsCache hash build base (λ k. ok (session_for claims k))
      (client_for hash build base at claims.credential clients)
      (client_for-fresh hash build base at claims.credential clients free cached).1

module _ {C : Type 0} (hash : Str → Str) (build : Config → Result Str C) (base : Config)
    (decode : Str → Option Json) (post : C → Str → Json → Result ApiError Json)
    (settings : Settings) (c : Encryption) where
  -- For a hash without collisions and an encryption whose tickets are decrypted to what they seal: the
  -- ticket of a login with a cache that has clients for their keys gives back, on any later cache that
  -- has clients for their keys, and until the session ends, a session of the same user with the same
  -- credential, client and end; from then on it is refused as expired. Either way it leaves a cache that
  -- has clients for their keys.
  pub resume-login :
      (at now : ℕ) (credential : Credential) (clients : Clients C) (ticket : Str) (s : Session C)
      → (after : Clients C) → IsCollisionFree hash
      → IsEncryption c
      → IsCache hash build base clients
      → login hash build base decode post settings (some c) at now credential clients
        ≡ (ok (ticket, s), after)
      → (later_at later : ℕ) (clients' : Clients C) → IsCache hash build base clients'
      → (later < s.expires
          → (resume hash build base settings (some c) later_at later ticket clients').0 ≡ ok s)
        × (s.expires ≤ later
            → resume hash build base settings (some c) later_at later ticket clients'
              ≡ (err session_expired, clients'))
        × IsCache hash build base
            (resume hash build base settings (some c) later_at later ticket clients').1
  unfolding resume unsealed resumed
  resume-login at now credential clients ticket s after free round cached e later_at later clients'
        cached' =
      let (allowed, named, kube, got, (user, crypt, known, set, issued, same, answered)) =
        login-IsIssue decode post settings (some c) hash build base at now credential clients ticket
          s after e in
      let claims = claims_for settings now credential user in
      let is_open = λ (time : ℕ). unsealed-same settings c time ticket claims (
        round claims ticket (
          subst (λ k. k.encrypt_json claims ≡ ok ticket) (sym (some_injective c crypt set))
            issued)) in
      let first = client_for-fresh hash build base at credential clients free cached in
      let again = client_for-fresh hash build base later_at credential clients' free cached' in
      let client = again.0 ∙ sym first.0 ∙ ap (λ q. q.0) got in
      (
        λ live.
            ap (λ r. (resumed hash build base settings (some c) later_at r clients').0)
              (is_open later
                ∙ admitted-live settings later claims (subst (λ t. later < t.expires) same live)
                    allowed)
            ∙ with_client-ok (λ k. ok (session_for claims k))
                (client_for hash build base later_at credential clients') kube client
            ∙ ap ok (sym same),
        λ late.
            ap (λ r. resumed hash build base settings (some c) later_at r clients')
              (is_open later
                ∙ admitted-late settings later claims (subst (λ t. t.expires ≤ later) same late)),
        resumed-IsCache hash build base settings (some c) later_at
            (unsealed settings (some c) later ticket) clients' free cached',
      )

module _ {C : Type 0} (hash : Str → Str) (build : Config → Result Str C) (base : Config)
    (settings : Settings) where
  -- What a session that was resumed rests on.
  abbrev pub IsLive : Option Encryption → ℕ → Str → Session C → Type 0
  IsLive crypt now ticket s =
      (k : Encryption) × (claims : Claims) × (crypt ≡ some k)
      × (k.decrypt_json ticket ≡ some claims)
      × (now < s.expires)
      × (is_withheld settings s.credential ≡ false)
      × (s.user ≡ claims.user)
      × (s.credential ≡ claims.credential)
      × (s.expires ≡ claims.expires)
      × (fresh hash build base (build (as_credential s.credential base)) ≡ ok s.kube)

  admitted-ok :
      (now : ℕ) (claims found : Claims)
      → admitted settings now claims ≡ ok found
      → (claims ≡ found) × (now < claims.expires) × (is_withheld settings claims.credential ≡ false)
  unfolding admitted
  admitted-ok now claims found p =
      go (leb claims.expires now) (is_withheld settings claims.credential) refl p
    where
      go :
          (a b : Bool)
          → leb claims.expires now ≡ a
          → (if a then err session_expired else if b then err disabled else ok claims) ≡ ok found
          → (claims ≡ found) × (now < claims.expires) × (b ≡ false)
      go true b e q = absurd (cc)
      go false true e q = absurd (cc)
      go false false e q = (cc, ground arith, refl)

  abbrev session_ok : Session C → Result ApiError (Session C)
  session_ok = ok

  session_injective : (a b : Session C) → session_ok a ≡ session_ok b → a ≡ b
  session_injective a b e = cc

  resumed-IsLive :
      (crypt : Option Encryption) (at now : ℕ) (ticket : Str) (clients : Clients C) (s : Session C)
      → (after : Clients C) → IsCollisionFree hash
      → IsCache hash build base clients
      → (u : Result ApiError Claims) → unsealed settings crypt now ticket ≡ u
      → resumed hash build base settings crypt at u clients ≡ (ok s, after)
      → IsLive crypt now ticket s
  unfolding resumed unsealed
  resumed-IsLive crypt at now ticket clients s after free cached (err e) is_u p = absurd (cc)
  resumed-IsLive crypt at now ticket clients s after free cached (ok claims) is_u p =
      let (k, set, rest) = >>=-eq-ok (or_fail crypt starting) _ is_u in
      let (sealed, opens, rest) = >>=-eq-ok (or_fail (k.decrypt_json ticket) invalid) _ rest in
      let (same, live, allowed) = admitted-ok now sealed claims rest in
      let (kube, got, made) =
        with_client-inv (λ q. ok (session_for claims q))
          (client_for hash build base at claims.credential clients) s after p in
      subst (IsLive crypt now ticket) (session_injective (session_for claims kube) s made) (
        k,
        claims,
        or_fail-ok crypt starting k set,
        or_fail-ok (k.decrypt_json ticket) invalid sealed opens ∙ ap some same,
        subst (λ t. now < t.expires) same live,
        subst (λ t. is_withheld settings t.credential ≡ false) same allowed,
        refl,
        refl,
        refl,
        sym (client_for-fresh hash build base at claims.credential clients free cached).0 ∙ got,
      )

  -- For a hash without collisions and a cache with clients for their keys: a session is resumed only from
  -- a ticket that decrypts to its user, credential and end, before that end, with the server's identity
  -- only where it is offered, and with the client made for just that credential.
  pub resume-IsLive :
      (crypt : Option Encryption) (at now : ℕ) (ticket : Str) (clients : Clients C) (s : Session C)
      → (after : Clients C) → IsCollisionFree hash
      → IsCache hash build base clients
      → resume hash build base settings crypt at now ticket clients ≡ (ok s, after)
      → IsLive crypt now ticket s
  unfolding resume
  resume-IsLive crypt at now ticket clients s after free cached p =
      resumed-IsLive crypt at now ticket clients s after free cached
        (unsealed settings crypt now ticket) refl p
