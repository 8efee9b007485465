-- ===== src/Cluster/Clients/Laws.antt =====
-- A cached client acts as the credential that it is asked for.
use mathlib.Core.Bool.{false≢true}
use kubevirt_webgui.Base.{
  ℕ, ◌≡◌, refl, ap, sym, ◌∙◌, subst, Bool, true, false, ◌++◌, Option, none, some, Str, codes,
  starts_with, str_eq, str_eq_iff, if◌then◌else◌, arith, Result, ok, err,
}
use kubevirt_webgui.Base.Maps.{no_rows, insert, retain, retain_if}
use kubevirt_webgui.Cluster.{ApiError}
use kubevirt_webgui.Cluster.Clients.{
  Credential, token, server, Config, transport, as_credential, cache_key, Clients, is_used,
  keep_built, or_build, client_for,
}

-- No two texts have one hash.
abbrev pub IsCollisionFree : (Str → Str) → Type 0
IsCollisionFree hash = (s t : Str) → hash s ≡ hash t → s ≡ t

same_token : (s t : Str) → codes "token:" ++ s ≡ codes "token:" ++ t → s ≡ t
same_token s t e = cc

cache_key_injective :
    (hash : Str → Str)
    → IsCollisionFree hash
    → (a b : Credential) → cache_key hash a ≡ cache_key hash b
    → a ≡ b
unfolding cache_key
cache_key_injective hash free (token s) (token t) e = ap token (same_token s t (free _ _ e))
cache_key_injective hash free (token s) server e =
    absurd (false≢true (sym (ap (starts_with (codes "token:")) (free _ _ e))))
cache_key_injective hash free server (token t) e =
    absurd (false≢true (ap (starts_with (codes "token:")) (free _ _ e)))
cache_key_injective hash free server server e = refl

module _ {C : Type 0} (hash : Str → Str) (build : Config → Result Str C) (base : Config) where
  -- Every cached client is the one that is built for the credential of its key.
  abbrev pub IsBuilt : Str → C × ℕ → Type 0
  IsBuilt key (client, used) =
      (credential : Credential) × (key ≡ cache_key hash credential)
      × (build (as_credential credential base) ≡ ok client)

  abbrev pub IsCache : Clients C → Type 0
  IsCache clients = (key : Str) (row : C × ℕ) → clients key ≡ some row → IsBuilt key row

  pub no_rows-IsCache : IsCache no_rows
  no_rows-IsCache key row e = absurd (false≢true (empty e))
    where
      empty : no_rows {V = C × ℕ} key ≡ some row → false ≡ true
      empty p = cc

  -- What is built without a cache.
  abbrev pub fresh : Result Str C → Result ApiError C
  fresh (ok client) = ok client
  fresh (err e) = err (transport e)

  row_injective : (a b : C × ℕ) → some a ≡ some b → a ≡ b
  row_injective a b e = cc

  kept :
      (now : ℕ) (o : Option (C × ℕ)) (row : C × ℕ)
      → retain_if (is_used now) o ≡ some row
      → o ≡ some row
  kept now none row e = cc
  kept now (some (client, used)) row e = ground (arith, e)

  pub insert-IsCache :
      (credential : Credential) (client : C) (now : ℕ) (clients : Clients C)
      → build (as_credential credential base) ≡ ok client
      → IsCache clients
      → IsCache (insert (cache_key hash credential) (client, now) clients)
  unfolding insert
  insert-IsCache credential client now clients b h key row e =
      placed (str_eq (cache_key hash credential) key) refl e
    where
      placed :
          (hit : Bool)
          → str_eq (cache_key hash credential) key ≡ hit
          → (if hit then some (client, now) else clients key) ≡ some row
          → IsBuilt key row
      placed true is_hit p =
          subst (IsBuilt key) (row_injective (client, now) row p)
            (credential, sym ((str_eq_iff (cache_key hash credential) key).0 is_hit), b)
      placed false is_hit p = h key row p

  retain-IsCache :
      (now : ℕ) (clients : Clients C) → IsCache clients → IsCache (retain (is_used now) clients)
  unfolding retain
  retain-IsCache now clients h key row e = h key row (kept now (clients key) row e)

  built-cases :
      (credential : Credential) (now : ℕ) (clients : Clients C) (built : Result Str C)
      (found : Option (C × ℕ))
      → IsCollisionFree hash
      → IsCache clients
      → build (as_credential credential base) ≡ built
      → clients (cache_key hash credential) ≡ found
      → ((or_build (cache_key hash credential) now built found clients).0 ≡ fresh built)
        × IsCache (or_build (cache_key hash credential) now built found clients).1
  unfolding or_build keep_built
  built-cases credential now clients (err e) none free h b f = (refl, h)
  built-cases credential now clients (ok client) none free h b f =
      (refl, insert-IsCache credential client now clients b h)
  built-cases credential now clients built (some (client, used)) free h b f =
      let (other, same, c) = h (cache_key hash credential) (client, used) f in
      let mine =
        subst (λ o. build (as_credential o base) ≡ ok client)
          (sym (cache_key_injective hash free credential other same)) c in
      (ap fresh (sym mine ∙ b), insert-IsCache credential client now clients mine h)

  -- For a hash without collisions and a cache whose clients are each built for the credential of their
  -- key: `client_for` gives just what building anew for the credential gives, whatever is cached and
  -- whenever it was used, and the cache stays so.
  pub client_for-fresh :
      (now : ℕ) (credential : Credential) (clients : Clients C)
      → IsCollisionFree hash
      → IsCache clients
      → ((client_for hash build base now credential clients).0
          ≡ fresh (build (as_credential credential base)))
        × IsCache (client_for hash build base now credential clients).1
  unfolding client_for
  client_for-fresh now credential clients free h =
      built-cases credential now (retain (is_used now) clients)
        (build (as_credential credential base))
        (retain (is_used now) clients (cache_key hash credential)) free
        (retain-IsCache now clients h) refl refl
