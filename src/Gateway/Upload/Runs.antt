-- ===== src/Gateway/Upload/Runs.antt =====
-- What happens to one upload over its socket: the calls of the handler, the task that prepares, and
-- what the task of the upload (src/extensions/storage.rs) sets.
use kubevirt_webgui.Base.{
  ℕ, ◌+◌, ◌≤◌, ◌≡◌, Bool, true, false, List, [], ◌∷◌, Option, some, Str, Result, length, All,
}
use kubevirt_webgui.Gateway.Upload.{
  UploadState, ready, set, fail_session, Upstream, Answer, Active, Reply, ack, done, Message,
  Connection, prepared, on_message, on_close,
}

module _ (show : ℕ → Str) (says_done : Str → Bool) where
  pub data Step (s : Connection) : Connection → Type 0 where
    prepares :
        (wait : Option UploadState) (opened : Result Str Str) (a : Active)
        → s.active ≡ some a
        → a.prepare ≡ true
        → Step s (prepared wait opened a s)
    receives :
        (message : Message) (accepts : Bool) (answer : Answer)
        → Step s (on_message show says_done message accepts answer s)
    closes : Step s (on_close s)
    sets_ready : (token : Str) → Step s (record s { session = set (ready token) s.session })
    fails : (reason : Str) → Step s (record s { session = fail_session reason s.session })

  pub data Reach (s : Connection) : Connection → Type 0 where
    here : Reach s s
    next : {t u : Connection} → Reach s t → Step t u → Reach s u

-- The bytes of the chunks in a body.
unfoldable pub bytes : List (List ℕ) → ℕ
bytes [] = 0
bytes (chunk ∷ rest) = length chunk + bytes rest

-- An entry counts the bytes that its open request was given, never more than the file has, and has
-- no request before it is prepared or once it is finished.
abbrev pub IsSound : ℕ → Active → Type 0
IsSound size a =
    (a.received ≤ size)
    × ((u : Upstream)
        → a.upstream ≡ some u
        → (bytes u.body ≡ a.received) × (a.finished ≡ false) × (a.prepare ≡ false))
    × (a.prepare ≡ true → (a.received ≡ 0) × (a.finished ≡ false))

-- What a reply says was received is in the file.
abbrev pub IsBounded : ℕ → Reply → Type 0
IsBounded size (ack n) = n ≤ size
IsBounded size (done n) = n ≤ size
IsBounded size reply = Unit

pub record IsCounted (size : ℕ) (s : Connection) : Type 0 where
  pub fixed : s.session.size ≡ size
  pub sound : (a : Active) → s.active ≡ some a → IsSound size a
  pub bounded : All (IsBounded size) s.replies
  -- A request that is closed had no more bytes than the file, and its entry is finished.
  pub ended :
      (body : List (List ℕ))
      → s.sent ≡ some body
      → (bytes body ≤ size) × ((a : Active) → s.active ≡ some a → a.finished ≡ true)
