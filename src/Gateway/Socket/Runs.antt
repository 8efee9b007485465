-- ===== src/Gateway/Socket/Runs.antt =====
-- What may happen to a socket: its messages, one after the other, and the polls of its tasks, in any
-- order. `abort` stops a task at its next wait: one that is in a poll goes on to the end of it.
use kubevirt_webgui.Base.{
  ℕ, ◌≡◌, ◌==◌, Bool, true, false, List, Option, none, some, Str, Result, any,
}
use kubevirt_webgui.Rpc.{RpcError}
use kubevirt_webgui.Gateway.Socket.{
  Inbound, Work, calls, follows, Phase, running, answered, returned, removed, gone, Socket,
  Incoming, send, task, move, reply, end_frame, take_off, emit, insert_handle, on_message,
  cancel_all, on_close,
}

abbrev pub is_told : ℕ → List ℕ → Bool
is_told t = any (λ u. u == t)

module _ {V : Type 0} (read : Str → Result Str (Inbound V)) (max_frame : ℕ) where
  -- `Allowed` restricts what the browser sends.
  pub data Step (Allowed : Socket V → Incoming → Type 0) (s : Socket V) : Socket V → Type 0 where
    receives :
        (now : ℕ) (message : Incoming)
        → Allowed s message
        → s.inserting ≡ none
        → Step Allowed s (on_message read max_frame now message s)
    inserts : Step Allowed s (insert_handle s.inserting s)
    closes : s.inserting ≡ none → Step Allowed s (on_close s)
    signs_out : Step Allowed s (cancel_all s)
    polls :
        (t : ℕ) (work : Work V) (phase : Phase V)
        → s.tasks t ≡ some (task work phase false)
        → is_told t s.aborted ≡ false
        → Step Allowed s (move t (task work phase true) s)
    rests :
        (t : ℕ) (work : Work V)
        → s.tasks t ≡ some (task work running true)
        → Step Allowed s (move t (task work running false) s)
    emits :
        (t : ℕ) (id topic : Str) (params v : V)
        → s.tasks t ≡ some (task (follows id topic params) running true)
        → Step Allowed s (emit id v s)
    answers :
        (t : ℕ) (id : Option Str) (method : Str) (params : V) (r : Result RpcError V)
        → s.tasks t ≡ some (task (calls id method params) running true)
        → Step Allowed s (move t (task (calls id method params) (answered r) true) s)
    replies :
        (t : ℕ) (id : Option Str) (method : Str) (params : V) (r : Result RpcError V)
        → s.tasks t ≡ some (task (calls id method params) (answered r) true)
        → Step Allowed s (send (reply id r) (move t (task (calls id method params) gone true) s))
    returns :
        (t : ℕ) (id topic : Str) (params : V) (r : Result RpcError (Unit {0}))
        → s.tasks t ≡ some (task (follows id topic params) running true)
        → Step Allowed s (move t (task (follows id topic params) (returned r) true) s)
    removes :
        (t : ℕ) (id topic : Str) (params : V) (r : Result RpcError (Unit {0}))
        → s.tasks t ≡ some (task (follows id topic params) (returned r) true)
        → Step Allowed s (take_off id (move t (task (follows id topic params) (removed r) true) s))
    ends :
        (t : ℕ) (id topic : Str) (params : V) (r : Result RpcError (Unit {0}))
        → s.tasks t ≡ some (task (follows id topic params) (removed r) true)
        → Step Allowed s
            (send (end_frame id r) (move t (task (follows id topic params) gone true) s))

  pub data Reach (Allowed : Socket V → Incoming → Type 0) (s : Socket V) : Socket V → Type 0 where
    here : Reach Allowed s s
    next : {t u : Socket V} → Reach Allowed s t → Step Allowed t u → Reach Allowed s u
