-- ===== src/Tasks/Manager.antt =====
-- Every task this process knows about: `TaskManager` (src/tasks.rs).
use kubevirt_webgui.Base.{
  ℕ, ◌+◌, ◌%◌, ◌^◌, Bool, true, false, ◌&&◌, List, [], ◌∷◌, ◌++◌, reverse, Option, none, some, Str,
  codes, str_eq, leb, if◌then◌else◌, length, drop_first, take, keep, Result, ok, err,
}
use kubevirt_webgui.Tasks.{
  max_tasks, TaskStatus, running, error, stopped, TaskTarget, TaskInfo, LogLine, Entry, Store,
  write,
}
use kubevirt_webgui.Tasks.Id.{task_id}
use kubevirt_webgui.Tasks.Handle.{send, put, log, finish}

abbrev pub new_info : Str → Str → TaskTarget → Str → ℕ → Store → TaskInfo
new_info user kind target description started s = record {
  id = task_id user started s.seq kind target;
  kind = kind;
  description = description;
  target = target;
  user = user;
  started_at = started;
  ended_at = none;
  status = running;
  message = none;
  progress = none;
}

abbrev pub new_entry : TaskInfo → Entry
new_entry info = record { info = info; log = []; abort = none; progress_sent = none }

-- At most `KEEP` tasks: the oldest goes.
abbrev pub push_task : ℕ → List ℕ → List ℕ
push_task r tasks = (if leb max_tasks (length tasks) then drop_first tasks else tasks) ++ r ∷ []

-- `spawn` up to the start of the future: the id, the handle, and the store.
unfoldable pub spawn : Str → Str → TaskTarget → Str → ℕ → Store → Str × ℕ × Store
spawn user kind target description started s =
    let info = new_info user kind target description started s in
    (
      info.id,
      s.next,
      send none info (record s {
        heap = write s.heap s.next (new_entry info);
        next = s.next + 1;
        tasks = push_task s.next s.tasks;
        seq = (s.seq + 1) % 2 ^ 64;
      }),
    )

-- The end of `spawn`: the abort handle is put into the entry, when the future may already run.
unfoldable pub attach : ℕ → ℕ → Store → Store
attach r future s = elim (s.heap r) [
  | none ↦ s
  | some e ↦ put r (record e { abort = some future }) s
]

abbrev log_message : ℕ → Option Str → ℕ → Store → Store
log_message r none now s = s
log_message r (some message) now s = log r message now s

-- What the spawned future does when the work has ended. The error is its message.
unfoldable pub complete : ℕ → Result Str (Option Str) → ℕ → Store → Store
complete r (ok message) now s =
    finish r TaskStatus.ok message now (log r (codes "TASK OK") now (log_message r message now s))
complete r (err message) now s =
    finish r error (some message) now (log r (codes "TASK ERROR: " ++ message) now s)

-- The entries of the deque.
unfoldable pub entries : (ℕ → Option Entry) → List ℕ → List Entry
entries heap [] = []
entries heap (r ∷ rs) = elim (heap r) [ none ↦ entries heap rs | some e ↦ e ∷ entries heap rs ]

unfoldable pub infos : List Entry → List TaskInfo
infos [] = []
infos (e ∷ es) = e.info ∷ infos es

-- The most recent tasks started by `user`, newest first.
unfoldable pub list : Str → ℕ → Store → List TaskInfo
unfolding entries infos
list user limit s =
    take limit (keep (λ i. str_eq i.user user) (infos (reverse (entries s.heap s.tasks))))

abbrev pub is_asked : Str → Str → Entry → Bool
is_asked user id e = str_eq e.info.id id && str_eq e.info.user user

unfoldable pub find_in : (ℕ → Option Entry) → Str → Str → List ℕ → Option ℕ
find_in heap user id [] = none
find_in heap user id (r ∷ rs) = elim (heap r) [
  | none ↦ find_in heap user id rs
  | some e ↦ if is_asked user id e then some r else find_in heap user id rs
]

unfoldable pub find : Str → Str → Store → Option ℕ
unfolding find_in
find user id s = find_in s.heap user id s.tasks

-- A task and its log, if `user` started it.
unfoldable pub detail : Str → Str → Store → Option (TaskInfo × List LogLine)
detail user id s = elim (find user id s) [
  | none ↦ none
  | some r ↦ elim (s.heap r) [ none ↦ none | some e ↦ some (e.info, e.log) ]
]

-- `abort.take()`, and the future told to stop.
unfoldable pub abort : ℕ → Store → Store
abort r s = elim (s.heap r) [
  | none ↦ s
  | some e ↦ elim e.abort [
    | none ↦ s
    | some future ↦ record s {
      heap = write s.heap r (record e { abort = none });
      aborted = future ∷ s.aborted;
    }
  ]
]

unfoldable pub end_stopped : ℕ → ℕ → Store → Store
end_stopped r now s =
    finish r stopped (some (codes "stopped")) now
      (log r (codes "TASK STOPPED by user request") now (abort r s))

-- Stop a running task.
unfoldable pub stop : Str → Str → ℕ → Store → Bool × Store
stop user id now s = elim (find user id s) [
  | none ↦ (false, s)
  | some r ↦ (true, end_stopped r now s)
]
