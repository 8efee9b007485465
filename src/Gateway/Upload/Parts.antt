-- ===== src/Gateway/Upload/Parts.antt =====
-- The changes of a connection that its handler is made of keep it valid.
use kubevirt_webgui.Base.{
  ℕ, ◌+◌, ◌≤◌, ◌≡◌, refl, Bool, true, false, List, [], ◌∷◌, ◌++◌, some, Str, Result, ok, err,
  length, All, All-append, arith, subst, sym, if◌then◌else◌,
}
use kubevirt_webgui.Gateway.Upload.{
  UploadState, set, fail_session, Upstream, Active, Reply, Connection, fail, reply, conclude,
  close_body,
}
use kubevirt_webgui.Gateway.Upload.Runs.{bytes, IsSound, IsBounded, IsCounted}

pub bytes-append :
    (xs : List (List ℕ)) (chunk : List ℕ) → bytes (xs ++ (chunk ∷ [])) ≡ bytes xs + length chunk
unfolding bytes
bytes-append [] chunk = ground arith
bytes-append (x ∷ xs) chunk = ground (arith, bytes-append xs chunk)

pub some_injective : {A : Type 0} {a b : A} → some a ≡ some b → a ≡ b
some_injective e = cc

-- The parts of a change that keep a state valid.
pub reply-IsCounted :
    (size : ℕ) (rs : List Reply) (s : Connection)
    → IsCounted size s
    → All (IsBounded size) rs
    → IsCounted size (reply rs s)
unfolding reply
reply-IsCounted size rs s v h = record {
  fixed = v.fixed;
  sound = v.sound;
  bounded = All-append (IsBounded size) s.replies rs v.bounded h;
  ended = v.ended;
}

pub set-IsCounted :
    (size : ℕ) (state : UploadState) (s : Connection)
    → IsCounted size s
    → IsCounted size (record s { session = set state s.session })
unfolding set
set-IsCounted size state s v = record {
  fixed = v.fixed;
  sound = v.sound;
  bounded = v.bounded;
  ended = v.ended;
}

pub fail_session-IsCounted :
    (size : ℕ) (reason : Str) (s : Connection)
    → IsCounted size s
    → IsCounted size (record s { session = fail_session reason s.session })
unfolding fail_session
fail_session-IsCounted size reason s v = record {
  fixed = v.fixed;
  sound = v.sound;
  bounded = v.bounded;
  ended = v.ended;
}

pub fail-IsCounted :
    (size : ℕ) (reason : Str) (s : Connection) → IsCounted size s → IsCounted size (fail reason s)
unfolding fail
fail-IsCounted size reason s v =
    reply-IsCounted size _ _ (fail_session-IsCounted size reason s v) (tt, (tt, tt))

pub put-IsCounted :
    (size : ℕ) (a : Active) (s : Connection)
    → IsCounted size s
    → IsSound size a
    → ((body : List (List ℕ)) → s.sent ≡ some body → a.finished ≡ true)
    → IsCounted size (record s { active = some a })
put-IsCounted size a s v sound over = record {
  fixed = v.fixed;
  sound = λ b e. subst (IsSound size) (some_injective e) sound;
  bounded = v.bounded;
  ended = λ body e. ((v.ended body e).0, λ b f. rw (sym (some_injective f)) (over body e));
}

pub conclude-IsCounted :
    (size : ℕ) (outcome : Result Str (Unit {0})) (received : ℕ) (s : Connection)
    → IsCounted size s
    → received ≤ size
    → IsCounted size (conclude outcome received s)
unfolding conclude
conclude-IsCounted size (ok _) received s v h =
    reply-IsCounted size _ _ (set-IsCounted size UploadState.finished s v) (h, (tt, tt))
conclude-IsCounted size (err message) received s v h = fail-IsCounted size message s v

pub close_body-IsCounted :
    (size : ℕ) (u : Upstream) (a : Active) (s : Connection)
    → IsCounted size s
    → IsSound size a
    → a.upstream ≡ some u
    → IsCounted size (close_body u a s)
unfolding close_body
close_body-IsCounted size u a s v (bound, request, start) up = record {
  fixed = v.fixed;
  sound = λ b e.
      subst (IsSound size) (some_injective e)
        (bound, (λ w f. ground arith), λ p. ground (arith, (request u up).2));
  bounded = v.bounded;
  ended = λ body e. (ground (arith, (request u up).0), λ b f. rw (sym (some_injective f)) refl);
}

pub either-IsCounted :
    (size : ℕ) (b : Bool) {s t : Connection}
    → IsCounted size s
    → IsCounted size t
    → IsCounted size (if b then s else t)
either-IsCounted size true v w = v
either-IsCounted size false v w = w
