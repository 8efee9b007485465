-- ===== src/Gateway/Upload/Outcomes.antt =====
-- How an upload ends.
use kubevirt_webgui.Base.{
  ℕ, ◌+◌, ◌≡◌, ◌⊎◌, refl, Bool, true, false, List, some, Str, Result, ok, err, length, arith, ◌∙◌,
  ap, Bool-cases, Option-cases, inl, inr, ltb, ◌==◌, if◌then◌else◌,
}
use kubevirt_webgui.Gateway.Upload.{
  UploadState, set, Upstream, Answer, Active, Message, binary, text, closing, Connection,
  on_message, on_close, on_chunk, on_done, on_open_message, finish, fail, reply, verdict, conclude,
  close_body, passed_on, acknowledge,
}
use kubevirt_webgui.Gateway.Upload.Runs.{
  Step, prepares, receives, closes, sets_ready, fails, Reach, here, next, bytes, IsCounted,
}
use kubevirt_webgui.Gateway.Upload.Parts.{bytes-append}
use kubevirt_webgui.Gateway.Upload.Laws.{Reach-IsCounted}

-- A body that the proxy was given and approved.
abbrev pub Approved : (ℕ → Str) → Answer → List (List ℕ) → Connection → Type 0
Approved show answer body t = (verdict show answer ≡ ok tt) × (t.sent ≡ some body)

fail-state :
    (reason : Str) (s : Connection)
    → (fail reason s).session.state ≡ UploadState.finished
    → s.session.state ≡ UploadState.finished
unfolding fail
fail-state reason s e = ground arith

-- Either the session was finished before, or the proxy approved a body with these properties.
abbrev Finishes : (ℕ → Str) → Answer → (List (List ℕ) → Type 0) → Connection → Connection → Type 0
Finishes show answer P s t =
    t.session.state ≡ UploadState.finished
    → (s.session.state ≡ UploadState.finished)
      ⊎ (body : List (List ℕ)) × P body × Approved show answer body t

module _ (show : ℕ → Str) (says_done : Str → Bool) where
  conclude-Finishes :
      (answer : Answer) (outcome : Result Str (Unit {0})) (received : ℕ) (s : Connection)
      (body : List (List ℕ)) (P : List (List ℕ) → Type 0)
      → P body
      → s.sent ≡ some body
      → verdict show answer ≡ outcome
      → Finishes show answer P s (conclude outcome received s)
  unfolding conclude set reply fail
  conclude-Finishes answer (ok _) received s body P p sent e h = inr (body, p, (e, sent))
  conclude-Finishes answer (err message) received s body P p sent e h = inl (fail-state message s h)

  finish-Finishes :
      (answer : Answer) (a : Active) (s : Connection) (P : List (List ℕ) → Type 0)
      → ((u : Upstream) → a.upstream ≡ some u → P u.body)
      → Finishes show answer P s (finish show answer a s)
  unfolding finish
  finish-Finishes answer a s P p = elim (Option-cases a.upstream) [
    | inl shut ↦ rw (shut, finish) (λ h. inl h)
    | inr (u, up) ↦
        rw (up, finish)
          (conclude-Finishes answer (verdict show answer) a.received (close_body u a s) u.body P
            (p u up) refl refl)
  ]

  -- The body has all the bytes, unless the proxy refused a chunk.
  abbrev pub Whole : ℕ → Bool → List (List ℕ) → Type 0
  Whole size accepts body = (bytes body ≡ size) ⊎ (accepts ≡ false)

  acknowledge-state :
      (a : Active) (s : Connection)
      → (acknowledge a s).session.state ≡ UploadState.finished
      → s.session.state ≡ UploadState.finished
  unfolding acknowledge set
  acknowledge-state a s h = cc

  from_acknowledged :
      (size : ℕ) (a : Active) (s : Connection) (answer : Answer) (t : Connection)
      → Finishes show answer (Whole size true) (acknowledge a s) t
      → Finishes show answer (Whole size true) s t
  from_acknowledged size a s answer t f h = elim (f h) [
    | inl before ↦ inl (acknowledge-state a s before)
    | inr approved ↦ inr approved
  ]

  whole :
      (size : ℕ) (chunk : List ℕ) (u : Upstream) (a : Active) (s : Connection)
      → IsCounted size s
      → s.active ≡ some a
      → a.upstream ≡ some u
      → (w : Upstream) → (passed_on chunk u a).upstream ≡ some w
      → (a.received + length chunk == s.session.size) ≡ true
      → bytes w.body ≡ size
  whole size chunk u a s v e up w f last =
      ground (arith, bytes-append u.body chunk, (((v.sound a e).1) u up).0, v.fixed)

  on_chunk-Finishes :
      (size : ℕ) (chunk : List ℕ) (accepts : Bool) (answer : Answer) (u : Upstream) (a : Active)
      (s : Connection)
      → IsCounted size s
      → s.active ≡ some a
      → a.upstream ≡ some u
      → Finishes show answer
          (Whole size accepts)
          s
          (on_chunk show says_done chunk accepts answer u a s)
  unfolding on_chunk
  on_chunk-Finishes size chunk accepts answer u a s v e up =
      elim (Bool-cases (ltb s.session.size (a.received + length chunk))) [
        | inl long ↦ rw (long, on_chunk) (λ h. inl (fail-state _ s h))
        | inr fits ↦ elim (Bool-cases accepts) [
          | inr gone ↦
              rw (fits, gone, on_chunk)
                (finish-Finishes answer a s (Whole size false) (λ w f. inr refl))
          | inl sent ↦ elim (Bool-cases (a.received + length chunk == s.session.size)) [
            | inl last ↦
                rw (fits, sent, last, on_chunk)
                  (from_acknowledged size (passed_on chunk u a) s answer
                    (finish show answer (passed_on chunk u a) (acknowledge (passed_on chunk u a) s))
                    (finish-Finishes answer (passed_on chunk u a)
                      (acknowledge (passed_on chunk u a) s) (Whole size true)
                      (λ w f. inl (whole size chunk u a s v e up w f last))))
            | inr more ↦
                rw (fits, sent, more, on_chunk)
                  (λ h. inl (acknowledge-state (passed_on chunk u a) s h))
          ]
        ]
      ]

  on_done-Finishes :
      (size : ℕ) (accepts : Bool) (answer : Answer) (a : Active) (s : Connection)
      → IsCounted size s
      → s.active ≡ some a
      → Finishes show answer (Whole size accepts) s (on_done show says_done answer a s)
  unfolding on_done
  on_done-Finishes size accepts answer a s v e = elim (Bool-cases (a.received == s.session.size)) [
    | inl all_there ↦
        rw (all_there, on_done)
          (finish-Finishes answer a s (Whole size accepts)
            (λ u up. inl (ground (arith, (((v.sound a e).1) u up).0, v.fixed))))
    | inr short ↦ rw (short, on_done) (λ h. inl (fail-state _ s h))
  ]

  on_open_message-Finishes :
      (size : ℕ) (message : Message) (accepts : Bool) (answer : Answer) (a : Active)
      (s : Connection)
      → IsCounted size s
      → s.active ≡ some a
      → Finishes show answer
          (Whole size accepts)
          s
          (on_open_message show says_done message accepts answer a s)
  unfolding on_open_message
  on_open_message-Finishes size (binary chunk) accepts answer a s v e =
      elim (Option-cases a.upstream) [
        | inl early ↦ rw (early, on_open_message) (λ h. inl (fail-state _ s h))
        | inr (u, up) ↦
            rw (up, on_open_message) (on_chunk-Finishes size chunk accepts answer u a s v e up)
      ]
  on_open_message-Finishes size (text t) accepts answer a s v e = elim (Bool-cases (says_done t)) [
    | inl says ↦ rw (says, on_open_message) (on_done-Finishes size accepts answer a s v e)
    | inr other ↦ rw (other, on_open_message) (λ h. inl h)
  ]
  on_open_message-Finishes size closing accepts answer a s v e = λ h. inl h

  either-Finishes :
      (size : ℕ) (accepts b : Bool) (answer : Answer) (s t : Connection)
      → Finishes show answer (Whole size accepts) s t
      → Finishes show answer (Whole size accepts) s (if b then s else t)
  either-Finishes size accepts true answer s t f = λ h. inl h
  either-Finishes size accepts false answer s t f = f

-- In a valid connection a message makes the upload finished only when the proxy approved the body
-- that was passed on, and that body has all the bytes of the file, unless the proxy refused a chunk.
pub on_message-finished :
    (show : ℕ → Str) (says_done : Str → Bool) (size : ℕ) (message : Message) (accepts : Bool)
    (answer : Answer) (s : Connection)
    → IsCounted size s
    → (on_message show says_done message accepts answer s).session.state ≡ UploadState.finished
    → (s.session.state ≡ UploadState.finished)
      ⊎ (body : List (List ℕ)) × ((bytes body ≡ size) ⊎ (accepts ≡ false))
        × Approved show answer body (on_message show says_done message accepts answer s)
unfolding on_message
on_message-finished show says_done size message accepts answer s v = elim (Option-cases s.active) [
  | inl away ↦ rw (away, on_message) (λ h. inl h)
  | inr (a, e) ↦
      rw (e, on_message)
        (either-Finishes show says_done size accepts a.finished answer s
          (on_open_message show says_done message accepts answer a s)
          (on_open_message-Finishes show says_done size message accepts answer a s v e))
]

on_message-sent :
    (show : ℕ → Str) (says_done : Str → Bool) (size : ℕ) (body : List (List ℕ)) (message : Message)
    (accepts : Bool) (answer : Answer) (s : Connection)
    → IsCounted size s
    → s.sent ≡ some body
    → (on_message show says_done message accepts answer s).sent ≡ s.sent
unfolding on_message
on_message-sent show says_done size body message accepts answer s v e =
    elim (Option-cases s.active) [
      | inl away ↦ rw (away, on_message) refl
      | inr (a, f) ↦
          rw (f, on_message)
            (ap
              (λ b.
                (if b then s else on_open_message show says_done message accepts answer a s).sent)
              ((v.ended body e).1 a f))
    ]

on_close-sent : (s : Connection) → (on_close s).sent ≡ s.sent
unfolding on_close
on_close-sent s = elim (Option-cases s.active) [
  | inl away ↦ rw (away, on_close) refl
  | inr (a, e) ↦ rw (e, on_close) (ground arith)
]

Step-sent :
    (show : ℕ → Str) (says_done : Str → Bool) (size : ℕ) {s t : Connection} (body : List (List ℕ))
    → IsCounted size s
    → s.sent ≡ some body
    → Step show says_done s t
    → t.sent ≡ some body
Step-sent show says_done size body v e (prepares wait opened a f p) =
    ground (arith, (v.ended body e).1 a f, ((v.sound a f).2 p).1)
Step-sent show says_done size {s} body v e (receives message accepts answer) =
    on_message-sent show says_done size body message accepts answer s v e ∙ e
Step-sent show says_done size {s} body v e closes = on_close-sent s ∙ e
Step-sent show says_done size body v e (sets_ready token) = e
Step-sent show says_done size body v e (fails reason) = e

-- In a valid connection a request body that is closed stays as it is through any sequence of events:
-- at most one is sent.
pub Reach-sent :
    (show : ℕ → Str) (says_done : Str → Bool) (size : ℕ) {s t : Connection} (body : List (List ℕ))
    → IsCounted size s
    → s.sent ≡ some body
    → Reach show says_done s t
    → t.sent ≡ some body
Reach-sent show says_done size body v e here = e
Reach-sent show says_done size body v e (next before step) =
    Step-sent show says_done size body (Reach-IsCounted show says_done size v before)
      (Reach-sent show says_done size body v e before) step
