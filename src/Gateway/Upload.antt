-- ===== src/Gateway/Upload.antt =====
-- Disk images uploaded over a socket (src/gateway/upload.rs): the session, and the handler of the
-- socket. The client of the session is left out: only the opening of the upstream request uses it,
-- and what that gives is an argument, as are the answers of CDI's upload proxy.
pub mod Runs
pub mod Parts
pub mod Messages
pub mod Laws
pub mod Outcomes
pub mod Tickets
mod Tests
use kubevirt_webgui.Base.{
  ℕ, ◌+◌, ◌*◌, Bool, true, false, not, ◌&&◌, List, [], ◌∷◌, ◌++◌, Option, none, some, Str, codes,
  Result, ok, err, length, take, leb, ltb, ◌==◌, if◌then◌else◌,
}

abbrev pub chunk_size : ℕ
chunk_size = 4 * 1024 * 1024

pub data UploadState : Type 0 where
  preparing : UploadState
  ready : Str → UploadState
  uploading : ℕ → UploadState
  finished : UploadState
  failed : Str → UploadState

pub record UploadSession : Type 0 where
  pub namespace : Str
  pub name : Str
  pub size : ℕ
  pub user : Str
  pub state : UploadState

abbrev pub new_session : Str → Str → ℕ → Str → UploadSession
new_session namespace name size user = record {
  namespace = namespace;
  name = name;
  size = size;
  user = user;
  state = preparing;
}

unfoldable pub set : UploadState → UploadSession → UploadSession
set state u = record u { state = state }

abbrev failed_state : Str → UploadState → UploadState
failed_state reason finished = finished
failed_state reason (failed first) = failed first
failed_state reason state = failed reason

-- Mark failed, unless already finished or failed.
unfoldable pub fail_session : Str → UploadSession → UploadSession
fail_session reason u = record u { state = failed_state reason u.state }

-- The open request: the chunks in its body, and how the proxy was reached.
pub record Upstream : Type 0 where
  pub body : List (List ℕ)
  pub route : Str

-- How the request ends: the status and the body of the answer, a failed request, an interrupted
-- task, or no answer in time.
pub data Answer : Type 0 where
  answered : ℕ → Str → Answer
  request_failed interrupted : Str → Answer
  silent : Answer

-- `show` prints a number.
unfoldable pub verdict : (ℕ → Str) → Answer → Result Str (Unit {0})
verdict show (answered status body) =
    if leb 200 status && ltb status 300
    then ok tt
    else err (codes "the upload proxy answered " ++ (show status ++ (codes ": " ++ body)))
verdict show (request_failed e) = err e
verdict show (interrupted e) = err (codes "the upload was interrupted: " ++ e)
verdict show silent = err (codes "the upload proxy did not answer")

-- `prepare` is whether the task that prepares still runs.
pub record Active : Type 0 where
  pub upstream : Option Upstream
  pub received : ℕ
  pub finished : Bool
  pub prepare : Bool

-- What is sent on the socket.
pub data Reply : Type 0 where
  status_preparing : Reply
  is_ready : ℕ → Str → Reply
  ack : ℕ → Reply
  done : ℕ → Reply
  error : Str → Reply
  close_with : Str → Reply
  close : Reply

pub data Message : Type 0 where
  binary : List ℕ → Message
  text : Str → Message
  closing : Message

-- One socket: the shared session, the entry of `active`, the replies in order, and the body of the
-- request once it is closed.
pub record Connection : Type 0 where
  pub session : UploadSession
  pub active : Option Active
  pub replies : List Reply
  pub sent : Option (List (List ℕ))

unfoldable pub reply : List Reply → Connection → Connection
reply rs s = record s { replies = s.replies ++ rs }

unfoldable pub fail : Str → Connection → Connection
unfolding fail_session reply
fail message s =
    reply (error message ∷ close_with (take 120 message) ∷ [])
      (record s { session = fail_session message s.session })

-- The state of the entry is put back after each change of it.
abbrev put : Active → Connection → Connection
put a s = record s { active = some a }

-- What the proxy's verdict leads to.
unfoldable pub conclude : Result Str (Unit {0}) → ℕ → Connection → Connection
unfolding set reply fail
conclude (ok _) received s =
    reply (done received ∷ close ∷ []) (record s { session = set UploadState.finished s.session })
conclude (err message) received s = fail message s

unfoldable pub close_body : Upstream → Active → Connection → Connection
close_body upstream a s = record (put (record a { upstream = none; finished = true }) s) {
  sent = some upstream.body;
}

-- Close the request body and read the proxy's answer.
unfoldable pub finish : (ℕ → Str) → Answer → Active → Connection → Connection
unfolding verdict conclude close_body
finish show answer a s = elim a.upstream [
  | none ↦ put a s
  | some upstream ↦ conclude (verdict show answer) a.received (close_body upstream a s)
]

-- A ticket that cannot be redeemed only gets an error. Else the socket has an entry, and the task
-- that prepares starts.
unfoldable pub on_connect : Option UploadSession → Connection → Connection
unfolding reply
on_connect none s =
    reply
      (error (codes "invalid or expired upload ticket")
        ∷ close_with (codes "invalid or expired upload ticket")
        ∷ [])
      s
on_connect (some session) s = reply (status_preparing ∷ []) (record s {
  session = session;
  active = some (record { upstream = none; received = 0; finished = false; prepare = true });
})

-- The task that prepares, once: what the wait for the session gives is its state when it is ready or
-- failed, or nothing in time, and `opened` is what the opening of the upstream request gives, with
-- its route.
unfoldable pub prepared : Option UploadState → Result Str Str → Active → Connection → Connection
unfolding reply set fail
prepared (some (ready token)) (ok route) a s =
    reply (is_ready chunk_size route ∷ [])
      (record (put
        (record a { upstream = some (record { body = []; route = route }); prepare = false }) s) {
          session = set (uploading 0) s.session;
        })
prepared (some (ready token)) (err message) a s =
    fail message (put (record a { prepare = false }) s)
prepared (some (failed reason)) opened a s = fail reason (put (record a { prepare = false }) s)
prepared _ opened a s =
    fail (codes "CDI did not become ready for the upload") (put (record a { prepare = false }) s)

-- The entry with a chunk passed on, and the state with it counted and acknowledged.
abbrev pub passed_on : List ℕ → Upstream → Active → Active
passed_on chunk upstream a = record a {
  upstream = some (record upstream { body = upstream.body ++ (chunk ∷ []) });
  received = a.received + length chunk;
}

unfoldable pub acknowledge : Active → Connection → Connection
unfolding set reply
acknowledge a s =
    reply (ack a.received ∷ [])
      (record (put a s) { session = set (uploading a.received) s.session })

module _ (show : ℕ → Str) (says_done : Str → Bool) where
  -- A chunk for the open request. `accepts` is whether the proxy still reads.
  unfoldable pub on_chunk : List ℕ → Bool → Answer → Upstream → Active → Connection → Connection
  unfolding acknowledge fail finish
  on_chunk chunk accepts answer upstream a s =
      let after = passed_on chunk upstream a in
      if ltb s.session.size (a.received + length chunk)
      then fail (codes "more data than the declared size") s
      else if not accepts
      then finish show answer a s
      else if after.received == s.session.size
      then finish show answer after (acknowledge after s)
      else acknowledge after s

  unfoldable pub on_done : Answer → Active → Connection → Connection
  unfolding fail finish
  on_done answer a s =
      if not (a.received == s.session.size)
      then fail
          (codes "the upload ended after "
            ++ (show a.received ++ (codes " of " ++ (show s.session.size ++ codes " bytes"))))
          s
      else finish show answer a s

  unfoldable pub on_open_message : Message → Bool → Answer → Active → Connection → Connection
  unfolding on_chunk on_done fail
  on_open_message (binary chunk) accepts answer a s = elim a.upstream [
    | none ↦ fail (codes "data arrived before the upload was ready") s
    | some upstream ↦ on_chunk chunk accepts answer upstream a s
  ]
  on_open_message (text t) accepts answer a s = if says_done t then on_done answer a s else s
  on_open_message closing accepts answer a s = s

  unfoldable pub on_message : Message → Bool → Answer → Connection → Connection
  unfolding on_open_message
  on_message message accepts answer s = elim s.active [
    | none ↦ s
    | some a ↦ if a.finished then s else on_open_message message accepts answer a s
  ]

unfoldable pub on_close : Connection → Connection
unfolding fail_session
on_close s = elim s.active [
  | none ↦ s
  | some a ↦
      let closed = record s { active = none } in
      if a.finished then closed else record closed {
        session = fail_session (codes "the browser closed the upload before it finished") s.session;
      }
]
