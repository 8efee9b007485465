-- ===== src/Gateway/Socket/Fresh.antt =====
-- The subscriptions of a browser that takes a new id for each.
use kubevirt_webgui.Base.{
  ℕ, ◌≡◌, refl, sym, ap, subst, inl, inr, true, false, Option, none, some, Str, str_eq, codes,
  Result, ok, err, arith, Bool-cases, ltb, byte_len, if◌then◌else◌,
}
use kubevirt_webgui.Rpc.{RpcError, lookup}
use kubevirt_webgui.Gateway.Socket.{
  Frame, Inbound, calls, follows, running, answered, returned, removed, gone, Task, Socket,
  Incoming, text, binary, connected, send, task, move, take_off, emit, on_message, on_text, on_read,
  on_frame, start_call, start_subscription, unsubscribe, cancel_all, on_close,
}
use kubevirt_webgui.Gateway.Socket.Runs.{
  Step, receives, inserts, closes, signs_out, polls, rests, emits, answers, replies, returns,
  removes, ends, Reach, here, next,
}
use kubevirt_webgui.Gateway.Socket.Tracked.{
  followed, is_live, IsUnused, AllTold, Tracks, IsTracked, connected-IsTracked, move-IsTracked,
}
use kubevirt_webgui.Gateway.Socket.Rows.{
  take_off-IsTracked, drop-IsTracked, insert_handle-IsTracked, cancel_all-IsTracked,
}
use kubevirt_webgui.Gateway.Socket.Spawns.{spawn_call-IsTracked, spawn_subscription-IsTracked}

module _ {V : Type 0} where
  -- A frame that subscribes does so under an id of no earlier subscription.
  abbrev IsNew : Inbound V → Socket V → Type 0
  IsNew frame s =
      str_eq frame.op (codes "subscribe") ≡ true → (id : Str) → frame.id ≡ some id → IsUnused id s

  send-IsTracked : (frame : Frame V) (s : Socket V) → IsTracked s → IsTracked (send frame s)
  send-IsTracked frame s v = record {
    free = v.free;
    distinct = v.distinct;
    rows = v.rows;
    pending = v.pending;
    tracked = v.tracked;
    closed = v.closed;
  }

  start_call-IsTracked :
      (o : Option Str) (frame : Inbound V) (s : Socket V)
      → IsTracked s
      → IsTracked (start_call o frame s)
  unfolding start_call
  start_call-IsTracked none frame s v = send-IsTracked _ s v
  start_call-IsTracked (some method) frame s v =
      spawn_call-IsTracked frame.id method frame.params s v

  start_subscription-IsTracked :
      (o topic : Option Str) (frame : Inbound V) (s : Socket V)
      → s.is_open ≡ true
      → s.inserting ≡ none
      → ((id : Str) → o ≡ some id → IsUnused id s)
      → IsTracked s
      → IsTracked (start_subscription o topic frame s)
  unfolding start_subscription
  start_subscription-IsTracked (some id) (some topic) frame s o p u v =
      spawn_subscription-IsTracked id topic frame.params s o p (u id refl) v
  start_subscription-IsTracked (some id) none frame s o p u v = send-IsTracked _ s v
  start_subscription-IsTracked none topic frame s o p u v = send-IsTracked _ s v

  unsubscribe-IsTracked :
      (o : Option Str) (s : Socket V) → IsTracked s → IsTracked (unsubscribe o s)
  unfolding unsubscribe
  unsubscribe-IsTracked none s v = v
  unsubscribe-IsTracked (some id) s v = drop-IsTracked id _ s v

  on_frame-IsTracked :
      (now : ℕ) (frame : Inbound V) (s : Socket V)
      → s.is_open ≡ true
      → s.inserting ≡ none
      → IsNew frame s
      → IsTracked s
      → IsTracked (on_frame now frame s)
  unfolding on_frame
  on_frame-IsTracked now frame s o p u v = elim (Bool-cases (str_eq frame.op (codes "ping"))) [
    | inl yes_ping ↦ rw yes_ping (send-IsTracked _ s v)
    | inr no_ping ↦ elim (Bool-cases (str_eq frame.op (codes "call"))) [
      | inl yes_call ↦ rw (no_ping, yes_call) (start_call-IsTracked frame.method frame s v)
      | inr no_call ↦ elim (Bool-cases (str_eq frame.op (codes "subscribe"))) [
        | inl subscribes ↦
            rw (no_ping, no_call, subscribes)
              (start_subscription-IsTracked frame.id frame.topic frame s o p (u subscribes) v)
        | inr other ↦ elim (Bool-cases (str_eq frame.op (codes "unsubscribe"))) [
          | inl leaves ↦ rw (no_ping, no_call, other, leaves) (unsubscribe-IsTracked frame.id s v)
          | inr unknown ↦ rw (no_ping, no_call, other, unknown) (send-IsTracked _ s v)
        ]
      ]
    ]
  ]

  on_read-IsTracked :
      (now : ℕ) (r : Result Str (Inbound V)) (s : Socket V)
      → s.is_open ≡ true
      → s.inserting ≡ none
      → ((frame : Inbound V) → r ≡ ok frame → IsNew frame s)
      → IsTracked s
      → IsTracked (on_read now r s)
  unfolding on_read
  on_read-IsTracked now (err e) s o p u v = send-IsTracked _ s v
  on_read-IsTracked now (ok frame) s o p u v = on_frame-IsTracked now frame s o p (u frame refl) v

  emit-IsTracked : (id : Str) (w : V) (s : Socket V) → IsTracked s → IsTracked (emit id w s)
  unfolding emit
  emit-IsTracked id w s v = send-IsTracked _ s v

  on_close-IsTracked : (s : Socket V) → s.inserting ≡ none → IsTracked s → IsTracked (on_close s)
  unfolding on_close cancel_all lookup
  on_close-IsTracked s p v = elim (Bool-cases s.is_open) [
    | inr shut ↦ simp shut v
    | inl is_open ↦ simp is_open (
        let w = cancel_all-IsTracked s v in
        record {
          free = w.free;
          distinct = w.distinct;
          rows = w.rows;
          pending = w.pending;
          tracked = w.tracked;
          closed = λ c. (
            p,
            λ t k id is_k f h. elim (w.tracked t k id is_k f h) [
              | inl told ↦ told
              | inr (inl row) ↦ absurd (ground arith)
              | inr (inr new) ↦ absurd (ground arith)
            ],
          );
        })
  ]

  removed-IsTracked :
      (t : ℕ) (id topic : Str) (params : V) (r : Result RpcError (Unit {0})) (s : Socket V)
      → s.tasks t ≡ some (task (follows id topic params) (returned r) true)
      → IsTracked s
      → IsTracked (take_off id (move t (task (follows id topic params) (removed r) true) s))
  removed-IsTracked t id topic params r s e v =
      let w =
        move-IsTracked s t (follows id topic params) (returned r) (removed r) true true e
          (λ h. refl) v in
      let k : Task V = task (follows id topic params) (removed r) true in
      take_off-IsTracked id (move t k s)
        (λ u j is_j f h.
          let same : t ≡ u = w.distinct t u k j id (ground arith) is_j refl f in
          let is_k : k ≡ j = ground arith in
          absurd (ground (arith, ap (λ (x : Task V). is_live x.phase) is_k)))
        w

  module _ (read : Str → Result Str (Inbound V)) (max_frame : ℕ) where
    abbrev pub IsFresh : Socket V → Incoming → Type 0
    IsFresh s binary = Unit
    IsFresh s (text t) = (frame : Inbound V) → read t ≡ ok frame → IsNew frame s

    on_text-IsTracked :
        (now : ℕ) (t : Str) (s : Socket V)
        → s.is_open ≡ true
        → s.inserting ≡ none
        → IsFresh s (text t)
        → IsTracked s
        → IsTracked (on_text read max_frame now t s)
    unfolding on_text
    on_text-IsTracked now t s o p u v = elim (Bool-cases (ltb max_frame (byte_len t))) [
      | inl large ↦ rw large (send-IsTracked _ s v)
      | inr fits ↦ rw fits (on_read-IsTracked now (read t) s o p u v)
    ]

    on_message-IsTracked :
        (now : ℕ) (message : Incoming) (s : Socket V)
        → s.inserting ≡ none
        → IsFresh s message
        → IsTracked s
        → IsTracked (on_message read max_frame now message s)
    unfolding on_message
    on_message-IsTracked now binary s p u v = v
    on_message-IsTracked now (text t) s p u v = elim (Bool-cases s.is_open) [
      | inr shut ↦
          subst (λ b. IsTracked (if b then on_text read max_frame now t s else s)) (sym shut) v
      | inl is_open ↦
          subst (λ b. IsTracked (if b then on_text read max_frame now t s else s)) (sym is_open)
            (on_text-IsTracked now t s is_open p u v)
    ]

    Step-IsTracked : (s t : Socket V) → Step read max_frame IsFresh s t → IsTracked s → IsTracked t
    Step-IsTracked s t (receives now message allowed none_pending) v =
        on_message-IsTracked now message s none_pending allowed v
    Step-IsTracked s t inserts v = insert_handle-IsTracked s.inserting s refl v
    Step-IsTracked s t (closes p) v = on_close-IsTracked s p v
    Step-IsTracked s t signs_out v = cancel_all-IsTracked s v
    Step-IsTracked s t (polls u work phase e told) v =
        move-IsTracked s u work phase phase false true e (λ h. h) v
    Step-IsTracked s t (rests u work e) v =
        move-IsTracked s u work running running true false e (λ h. h) v
    Step-IsTracked s t (emits u id topic params w e) v = emit-IsTracked id w s v
    Step-IsTracked s t (answers u id method params r e) v =
        move-IsTracked s u (calls id method params) running (answered r) true true e (λ h. refl) v
    Step-IsTracked s t (replies u id method params r e) v =
        send-IsTracked _ _
          (move-IsTracked s u (calls id method params) (answered r) gone true true e (λ h. cc) v)
    Step-IsTracked s t (returns u id topic params r e) v =
        move-IsTracked s u (follows id topic params) running (returned r) true true e (λ h. h) v
    Step-IsTracked s t (removes u id topic params r e) v =
        removed-IsTracked u id topic params r s e v
    Step-IsTracked s t (ends u id topic params r e) v =
        send-IsTracked _ _
          (move-IsTracked s u (follows id topic params) (removed r) gone true true e (λ h. cc) v)

    Reach-valid : (s t : Socket V) → Reach read max_frame IsFresh s t → IsTracked s → IsTracked t
    Reach-valid s t here v = v
    Reach-valid s t (next {t = u} r m) v = Step-IsTracked u t m (Reach-valid s u r v)

    -- If the browser takes a new id for each subscription, then in whatever order messages and the
    -- polls of the spawned tasks come: a subscription that still runs is in the table under its id, or
    -- is about to be inserted, or was told to stop; no two subscriptions have one id; and once the
    -- socket has closed, every subscription that still runs was told to stop.
    pub Reach-Tracks :
        (s : Socket V)
        → Reach read max_frame IsFresh connected s
        → Tracks s
          × ((t u : ℕ) (j k : Task V) (id : Str)
              → s.tasks t ≡ some j
              → s.tasks u ≡ some k
              → followed j.work ≡ some id
              → followed k.work ≡ some id
              → t ≡ u)
          × (s.is_open ≡ false → AllTold s)
    Reach-Tracks s r =
        let v = Reach-valid connected s r connected-IsTracked in
        (v.tracked, v.distinct, λ c. (v.closed c).1)
