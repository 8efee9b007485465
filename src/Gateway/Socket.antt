-- ===== src/Gateway/Socket.antt =====
-- One browser's socket (`Gateway` in src/gateway/mod.rs, `Conn` and `Sink` in src/rpc.rs). `V` is the
-- type of the JSON values, `read` is how serde reads a frame, and `max_frame` is the settings'
-- `max_frame_bytes`. A task that is spawned is a number; it runs in polls, as tokio's tasks do.
use kubevirt_webgui.Base.{
  ℕ, zero, suc, Bool, true, false, not, List, [], ◌∷◌, ◌++◌, Option, none, some, Str, codes, str_eq,
  byte_len, keep, map, ltb, ◌==◌, if◌then◌else◌, Result, ok, err, Message,
}
use kubevirt_webgui.Rpc.{RpcError, lookup, put}
pub mod Runs
pub mod Tracked
pub mod Rows
pub mod Spawns
pub mod Fresh
pub mod Lost
mod Tests

abbrev pub bad_request : Message → RpcError
bad_request m = record { status = 400; code = codes "BadRequest"; message = m }

-- The frames that are sent, after the greeting.
pub data Frame (V : Type 0) : Type 0 where
  pong : Option Str → ℕ → Frame V
  result : Option Str → V → Frame V
  error : Option Str → RpcError → Frame V
  event : Str → V → Frame V
  end : Str → Option RpcError → Frame V

pub record Inbound (V : Type 0) : Type 0 where
  pub id : Option Str
  pub op : Str
  pub method : Option Str
  pub topic : Option Str
  pub params : V

-- What a spawned task does: a call, or a subscription.
pub data Work (V : Type 0) : Type 0 where
  calls : Option Str → Str → V → Work V
  follows : Str → Str → V → Work V

-- Where it is: in the registry, behind it with an outcome, out of the table, or at its end.
pub data Phase (V : Type 0) : Type 0 where
  running : Phase V
  answered : Result RpcError V → Phase V
  returned : Result RpcError (Unit {0}) → Phase V
  removed : Result RpcError (Unit {0}) → Phase V
  gone : Phase V

pub record Task (V : Type 0) : Type 0 where
  pub work : Work V
  pub phase : Phase V
  pub polled : Bool

-- `frames` is what was sent, newest first; `aborted` the tasks that were told to stop; `inserting` a
-- subscription that is spawned and not yet in the table.
pub record Socket (V : Type 0) : Type 0 where
  pub is_open : Bool
  pub subscriptions : List (Str × ℕ)
  pub inserting : Option (Str × ℕ)
  pub tasks : ℕ → Option (Task V)
  pub next : ℕ
  pub aborted : List ℕ
  pub frames : List (Frame V)

-- The messages of a socket, a binary one being ignored.
pub data Incoming : Type 0 where
  text : Str → Incoming
  binary : Incoming

-- `remove` of a map.
unfoldable pub without : Str → List (Str × ℕ) → List (Str × ℕ)
without id rows = keep (λ (row : Str × ℕ). not (str_eq row.0 id)) rows

-- The handle that was in the map, told to stop.
abbrev pub abort : Option ℕ → List ℕ → List ℕ
abort none aborted = aborted
abort (some t) aborted = t ∷ aborted

module _ {V : Type 0} where
  -- A connection as `on_connect` makes it.
  abbrev pub connected : Socket V
  connected = record {
    is_open = true;
    subscriptions = [];
    inserting = none;
    tasks = λ t. none;
    next = 0;
    aborted = [];
    frames = [];
  }

  abbrev pub send : Frame V → Socket V → Socket V
  send frame s = record s { frames = frame ∷ s.frames }

  abbrev pub write : (ℕ → Option (Task V)) → ℕ → Task V → ℕ → Option (Task V)
  write tasks t k u = if u == t then some k else tasks u

  abbrev pub spawn : Work V → Socket V → Socket V
  spawn work s = record s {
    tasks = write s.tasks s.next (record { work = work; phase = running; polled = false });
    next = suc s.next;
  }

  unfoldable pub start_call : Option Str → Inbound V → Socket V → Socket V
  start_call none frame s =
      send (error frame.id (bad_request (record { format = "`method` is required"; args = [] }))) s
  start_call (some method) frame s = spawn (calls frame.id method frame.params) s

  unfoldable pub start_subscription : Option Str → Option Str → Inbound V → Socket V → Socket V
  start_subscription (some id) (some topic) frame s =
      record (spawn (follows id topic frame.params) s) { inserting = some (id, s.next) }
  start_subscription _ _ frame s =
      send
        (error frame.id
          (bad_request (record { format = "`id` and `topic` are required"; args = [] })))
        s

  -- What follows the spawning of a subscription: its handle takes the place of an earlier one.
  unfoldable pub insert_handle : Option (Str × ℕ) → Socket V → Socket V
  unfolding put lookup
  insert_handle none s = s
  insert_handle (some (id, t)) s = record s {
    inserting = none;
    subscriptions = put id t s.subscriptions;
    aborted = abort (lookup id s.subscriptions) s.aborted;
  }

  unfoldable pub unsubscribe : Option Str → Socket V → Socket V
  unfolding lookup without
  unsubscribe none s = s
  unsubscribe (some id) s = record s {
    subscriptions = without id s.subscriptions;
    aborted = abort (lookup id s.subscriptions) s.aborted;
    frames = end id none ∷ s.frames;
  }

  unfoldable pub on_frame : ℕ → Inbound V → Socket V → Socket V
  unfolding start_call start_subscription unsubscribe str_eq
  on_frame now frame s =
      if str_eq frame.op (codes "ping")
      then send (pong frame.id now) s
      else if str_eq frame.op (codes "call")
      then start_call frame.method frame s
      else if str_eq frame.op (codes "subscribe")
      then start_subscription frame.id frame.topic frame s
      else if str_eq frame.op (codes "unsubscribe")
      then unsubscribe frame.id s
      else send
          (error frame.id
            (bad_request (record { format = "unknown op: {other}"; args = frame.op ∷ [] })))
          s

  unfoldable pub on_read : ℕ → Result Str (Inbound V) → Socket V → Socket V
  unfolding on_frame
  on_read now (err e) s =
      send (error none (bad_request (record { format = "malformed frame: {e}"; args = e ∷ [] }))) s
  on_read now (ok frame) s = on_frame now frame s

  module _ (read : Str → Result Str (Inbound V)) (max_frame : ℕ) where
    unfoldable pub on_text : ℕ → Str → Socket V → Socket V
    unfolding on_read
    on_text now t s =
        if ltb max_frame (byte_len t)
        then send (error none (bad_request (record { format = "frame too large"; args = [] }))) s
        else on_read now (read t) s

    unfoldable pub on_message : ℕ → Incoming → Socket V → Socket V
    unfolding on_text
    on_message now binary s = s
    on_message now (text t) s = if s.is_open then on_text now t s else s

  -- Stop every subscription: on sign-out, and when the socket closes.
  unfoldable pub cancel_all : Socket V → Socket V
  cancel_all s = record s {
    subscriptions = [];
    aborted = map (λ (row : Str × ℕ). row.1) s.subscriptions ++ s.aborted;
  }

  unfoldable pub on_close : Socket V → Socket V
  unfolding cancel_all
  on_close s = if s.is_open then cancel_all (record s { is_open = false }) else s

  -- What the spawned tasks do between their waits.
  abbrev pub task : Work V → Phase V → Bool → Task V
  task work phase polled = record { work = work; phase = phase; polled = polled }

  abbrev pub move : ℕ → Task V → Socket V → Socket V
  move t k s = record s { tasks = write s.tasks t k }

  abbrev pub reply : Option Str → Result RpcError V → Frame V
  reply id (ok v) = result id v
  reply id (err e) = error id e

  abbrev pub end_frame : Str → Result RpcError (Unit {0}) → Frame V
  end_frame id (ok _) = end id none
  end_frame id (err e) = end id (some e)

  unfoldable pub take_off : Str → Socket V → Socket V
  unfolding without
  take_off id s = record s { subscriptions = without id s.subscriptions }

  unfoldable pub emit : Str → V → Socket V → Socket V
  emit id v s = send (event id v) s
