-- ===== src/Auth/Accepted.antt =====
-- Who is signed in: whom the API server has accepted.
use kubevirt_webgui.Base.{
  ℕ, ◌+◌, ◌≤◌, ◌≡◌, refl, ap, sym, ◌∙◌, subst, is_empty, trim, byte_len, arith, ◌⊎◌, inl, inr, Bool,
  true, false, ◌||◌, ◌==◌, Option, none, some, Str, if◌then◌else◌, Result, ok, err, >>=-eq-ok,
  or_fail,
}
use kubevirt_webgui.Base.Json.{Json}
use kubevirt_webgui.Cluster.{ApiError}
use kubevirt_webgui.Cluster.Clients.{
  Credential, token, server, Config, as_credential, Clients, client_for,
}
use kubevirt_webgui.Cluster.Clients.Laws.{IsCollisionFree, IsCache, fresh, client_for-fresh}
use kubevirt_webgui.Auth.{UserInfo, Claims, Session, rejected}
use kubevirt_webgui.Auth.Whoami.{review_url, review, probe_url, probe, probed, identified, whoami}
use kubevirt_webgui.Auth.Login.{
  Encryption, Settings, is_withheld, is_no_token, withheld, no_token, starting, as_ticket, sealed,
  session_for, claims_for, issue, with_client, login,
}

abbrev pub IsAnswered : Result ApiError Json → Type 0
IsAnswered r = (answer : Json) × (r ≡ ok answer)

probed-ok :
    (probing : Result ApiError Json) (user : UserInfo)
    → probed probing ≡ ok user
    → IsAnswered probing
probed-ok (ok answer) user e = (answer, refl)
probed-ok (err failed) user e = go (failed.status == 401) e
  where
    go : (b : Bool) → (if b then err rejected else err failed) ≡ ok user → IsAnswered (err failed)
    go true p = cc
    go false p = cc

identified-ok :
    (reviewing probing : Result ApiError Json) (user : UserInfo)
    → identified reviewing probing ≡ ok user
    → IsAnswered reviewing ⊎ IsAnswered probing
unfolding identified
identified-ok (ok answer) probing user e = inl (answer, refl)
identified-ok (err failed) probing user e =
    inr (go (failed.status == 401) (failed.status == 404 || failed.status == 403) e)
  where
    go :
        (a b : Bool)
        → (if a then err rejected else if b then probed probing else err failed) ≡ ok user
        → IsAnswered probing
    go true b p = cc
    go false true p = probed-ok probing user p
    go false false p = cc

pub or_fail-ok :
    {A : Type 0} (o : Option A) (e : ApiError) (a : A) → or_fail o e ≡ ok a → o ≡ some a
or_fail-ok none e a p = cc
or_fail-ok (some b) e a p = cc

as_ticket-ok : (r : Result Str Str) (ticket : Str) → as_ticket r ≡ ok ticket → r ≡ ok ticket
as_ticket-ok (ok t) ticket p = cc
as_ticket-ok (err e) ticket p = cc

module _ {C : Type 0} (decode : Str → Option Json) (post : C → Str → Json → Result ApiError Json)
    (settings : Settings) (crypt : Option Encryption) where
  whoami-IsAnswered :
      (kube : C) (credential : Credential) (user : UserInfo)
      → whoami decode post kube credential ≡ ok user
      → IsAnswered (post kube review_url review) ⊎ IsAnswered (post kube probe_url probe)
  unfolding whoami
  whoami-IsAnswered kube credential user e =
      let (found, identity, _) =
        >>=-eq-ok (identified (post kube review_url review) (post kube probe_url probe)) _ e in
      identified-ok (post kube review_url review) (post kube probe_url probe) found identity

  -- How a ticket comes about.
  abbrev pub IsIssue : ℕ → Credential → C → Str → Session C → Type 0
  IsIssue now credential kube ticket s =
      (user : UserInfo) × (c : Encryption) × (whoami decode post kube credential ≡ ok user)
      × (crypt ≡ some c)
      × (c.encrypt_json (claims_for settings now credential user) ≡ ok ticket)
      × (s ≡ session_for (claims_for settings now credential user) kube)
      × (IsAnswered (post kube review_url review) ⊎ IsAnswered (post kube probe_url probe))

  abbrev issued : Str × Session C → Result ApiError (Str × Session C)
  issued = ok

  issued_injective : (a b : Str × Session C) → issued a ≡ issued b → a ≡ b
  issued_injective a b e = cc

  abbrev ticket_of : Str → Result ApiError Str
  ticket_of = ok

  pub issue-IsIssue :
      (now : ℕ) (credential : Credential) (kube : C) (ticket : Str) (s : Session C)
      → issue decode post settings crypt now credential kube ≡ ok (ticket, s)
      → IsIssue now credential kube ticket s
  unfolding issue
  issue-IsIssue now credential kube ticket s e =
      let (user, known, e) = >>=-eq-ok (whoami decode post kube credential) _ e in
      let (c, set, e) = >>=-eq-ok (or_fail crypt starting) _ e in
      let (t, is_sealed, e) = >>=-eq-ok (sealed c (claims_for settings now credential user)) _ e in
      let same =
        issued_injective (t, session_for (claims_for settings now credential user) kube) (ticket, s)
          e in
      (
        user,
        c,
        known,
        or_fail-ok crypt starting c set,
        as_ticket-ok _ ticket (is_sealed ∙ ap (λ p. ticket_of p.0) same),
        sym (ap (λ p. p.1) same),
        whoami-IsAnswered kube credential user known,
      )

  module _ (hash : Str → Str) (build : Config → Result Str C) (base : Config) where
    -- What stands between a credential and a ticket.
    abbrev pub Passes : ℕ → ℕ → Credential → Clients C → Str → Session C → Clients C → Type 0
    Passes at now credential clients ticket s after =
        (is_withheld settings credential ≡ false)
        × (is_no_token credential ≡ false)
        × (kube : C) × (client_for hash build base at credential clients ≡ (ok kube, after))
        × IsIssue now credential kube ticket s

    client_ok :
        (now : ℕ) (credential : Credential) (got : Result ApiError C × Clients C) (ticket : Str)
        → (s : Session C) (after : Clients C)
        → with_client (issue decode post settings crypt now credential) got
          ≡ (ok (ticket, s), after)
        → (kube : C) × (got ≡ (ok kube, after)) × IsIssue now credential kube ticket s
    client_ok now credential (err e, clients) ticket s after p = absurd (cc)
    client_ok now credential (ok kube, clients) ticket s after p = (
      kube,
      ap (λ q. (ok kube, q.1)) p,
      issue-IsIssue now credential kube ticket s (ap (λ q. q.0) p),
    )

    pub login-IsIssue :
        (at now : ℕ) (credential : Credential) (clients : Clients C) (ticket : Str) (s : Session C)
        → (after : Clients C)
        → login hash build base decode post settings crypt at now credential clients
          ≡ (ok (ticket, s), after)
        → Passes at now credential clients ticket s after
    unfolding login
    login-IsIssue at now credential clients ticket s after p =
        go (is_withheld settings credential) (is_no_token credential) p
      where
        go :
            (a b : Bool)
            → (if a
                then (err withheld, clients)
                else if b
                then (err no_token, clients)
                else with_client
                    (issue decode post settings crypt now credential)
                    (client_for hash build base at credential clients))
              ≡ (ok (ticket, s), after)
            → (a ≡ false)
              × (b ≡ false)
              × (kube : C) × (client_for hash build base at credential clients ≡ (ok kube, after))
              × IsIssue now credential kube ticket s
        go true b p = absurd (cc)
        go false true p = absurd (cc)
        go false false p =
            let (kube, got, issue) =
              client_ok now credential (client_for hash build base at credential clients) ticket s
                after p in
            (refl, refl, kube, got, issue)

    -- A token that is not blank and not too long.
    abbrev pub IsToken : Str → Type 0
    IsToken t = (is_empty (trim t) ≡ false) × (byte_len t ≤ 16384)

    -- Who was let in, and what was sealed for it.
    abbrev pub IsLogin : ℕ → Credential → Str → Session C → Type 0
    IsLogin now credential ticket s =
        (credential ≡ server → settings.allow_server_identity ≡ true)
        × ((t : Str) → credential ≡ token t → IsToken t)
        × (fresh hash build base (build (as_credential credential base)) ≡ ok s.kube)
        × (IsAnswered (post s.kube review_url review) ⊎ IsAnswered (post s.kube probe_url probe))
        × (whoami decode post s.kube credential ≡ ok s.user)
        × (s.credential ≡ credential)
        × (s.expires ≡ now + settings.session_ttl)
        × (c : Encryption) × (claims : Claims) × (crypt ≡ some c)
        × (c.encrypt_json claims ≡ ok ticket)
        × (claims.credential ≡ credential)
        × (claims.user ≡ s.user)
        × (claims.issued ≡ now)
        × (claims.expires ≡ now + settings.session_ttl)

    offered :
        (credential : Credential)
        → is_withheld settings credential ≡ false
        → credential ≡ server
        → settings.allow_server_identity ≡ true
    offered credential h e = ground (arith, ap (is_withheld settings) e)

    is_no_token-IsToken :
        (credential : Credential) (t : Str)
        → is_no_token credential ≡ false
        → credential ≡ token t
        → IsToken t
    unfolding is_no_token
    is_no_token-IsToken credential t h e =
        let here = sym (ap is_no_token e) ∙ h in (ground arith, ground arith)

    -- For a hash without collisions and a cache with clients for their keys: who is signed in was allowed
    -- to, with the server's identity only where it is offered and a token only if it is not blank and of
    -- at most 16 KiB; the client made for just this credential got an answer of the API server, to the
    -- review or to the probe; the session has that client, the user whom `whoami` found with it, the
    -- credential and an end a session's time from now, and the ticket seals all of these but the client.
    pub login-IsLogin :
        (at now : ℕ) (credential : Credential) (clients : Clients C) (ticket : Str) (s : Session C)
        → (after : Clients C) → IsCollisionFree hash
        → IsCache hash build base clients
        → login hash build base decode post settings crypt at now credential clients
          ≡ (ok (ticket, s), after)
        → IsLogin now credential ticket s
    login-IsLogin at now credential clients ticket s after free cached p =
        let (allowed, named, kube, got, (user, c, known, set, sealed_it, same, answered)) =
          login-IsIssue at now credential clients ticket s after p in
        let claims = claims_for settings now credential user in
        let own = ap (λ t. t.kube) same in
        (
          offered credential allowed,
          λ t. is_no_token-IsToken credential t named,
          sym (client_for-fresh hash build base at credential clients free cached).0
              ∙ ap (λ q. q.0) got
              ∙ ap ok (sym own),
          subst (λ k. IsAnswered (post k review_url review) ⊎ IsAnswered (post k probe_url probe))
              (sym own) answered,
          ap (λ k. whoami decode post k credential) own
              ∙ known
              ∙ ap ok (sym (ap (λ t. t.user) same)),
          ap (λ t. t.credential) same,
          ap (λ t. t.expires) same,
          c,
          claims,
          set,
          sealed_it,
          refl,
          sym (ap (λ t. t.user) same),
          refl,
          refl,
        )
