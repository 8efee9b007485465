-- ===== src/Tasks/Ends.antt =====
-- How a stop ends a task, and when progress is broadcast.
use kubevirt_webgui.Base.{
  ℕ, ◌+◌, ◌≤◌, ◌≡◌, refl, ◌⊎◌, inl, inr, Bool, true, false, Option, none, some, Str, codes, arith,
  length, ==_refl, if◌then◌else◌, Bool-cases, Option-cases,
}
use kubevirt_webgui.Tasks.{
  stopped, progress_every, TaskStatus, TaskInfo, Entry, LogLine, Progress, Store, is_running,
}
use kubevirt_webgui.Tasks.Handle.{
  log, finish, finished, push_line, progress, is_complete, is_stored, is_recent,
}
use kubevirt_webgui.Tasks.Manager.{find, abort, end_stopped, stop}
use kubevirt_webgui.Tasks.Isolation.{find-own}

abort_at :
    (r : ℕ) (s : Store) (e : Entry)
    → s.heap r ≡ some e
    → (abort r s).heap r ≡ some (record e { abort = none })
unfolding abort
abort_at r s e p = ground (arith, ==_refl r)

log_at :
    (r : ℕ) (text : Str) (now : ℕ) (s : Store) (e : Entry)
    → s.heap r ≡ some e
    → (log r text now s).heap r
      ≡ some (record e { log = push_line (record { ts = now; text = text }) e.log })
unfolding log
log_at r text now s e p = ground (arith, ==_refl r)

-- The information of a task after its end is asked for.
abbrev pub ended_info : TaskStatus → Option Str → ℕ → TaskInfo → TaskInfo
ended_info status message now info =
    if is_running info.status then finished status message now info else info

finish_at :
    (r : ℕ) (status : TaskStatus) (message : Option Str) (now : ℕ) (s : Store) (e : Entry)
    → s.heap r ≡ some e
    → (finish r status message now s).heap r
      ≡ some (record e { info = ended_info status message now e.info })
unfolding finish
finish_at r status message now s e p = ground (arith, ==_refl r)

abbrev pub stop_line : ℕ → LogLine
stop_line now = record { ts = now; text = codes "TASK STOPPED by user request" }

-- The entry after a stop: stopped if it ran, as it was if not; its log has one more line.
abbrev pub stopped_entry : ℕ → Entry → Entry
stopped_entry now e = record e {
  info = ended_info stopped (some (codes "stopped")) now e.info;
  log = push_line (stop_line now) e.log;
  abort = none;
}

end_stopped_at :
    (r now : ℕ) (s : Store) (e : Entry)
    → s.heap r ≡ some e
    → (end_stopped r now s).heap r ≡ some (stopped_entry now e)
unfolding end_stopped
end_stopped_at r now s e p =
    finish_at r stopped (some (codes "stopped")) now _ _
      (log_at r (codes "TASK STOPPED by user request") now (abort r s) _ (abort_at r s e p))

-- A stop that finds no such task of the user's changes nothing and says so. Otherwise it says that it
-- found the user's task; a running one ends as stopped, one that has ended stays as it ended.
pub stop_lem :
    (user id : Str) (now : ℕ) (s : Store)
    → ((find user id s ≡ none) × (stop user id now s ≡ (false, s)))
      ⊎ ((r : ℕ) × (e : Entry) × (s.heap r ≡ some e)
          × (e.info.user ≡ user)
          × (e.info.id ≡ id)
          × ((stop user id now s).0 ≡ true)
          × ((stop user id now s).1.heap r ≡ some (stopped_entry now e)))
unfolding stop
stop_lem user id now s = elim (Option-cases (find user id s)) [
  | inl missing ↦ inl (missing, rw (missing, stop))
  | inr (r, found) ↦
      let (e, at, id_same, user_same) = find-own user id s r found in
      inr (
        r,
        e,
        at,
        user_same,
        id_same,
        rw (found, stop),
        rw (found, stop) (end_stopped_at r now s e at),
      )
]

-- At least the interval since the last event.
abbrev pub IsDue : Option ℕ → ℕ → Type 0
IsDue none now = Unit {0}
IsDue (some at) now = at + progress_every ≤ now

is_recent_iff :
    (same_rate : ℕ → ℕ → Bool) (sent : Option ℕ) (now : ℕ)
    → ((is_recent same_rate sent now ≡ false) → IsDue sent now)
      × ((is_recent same_rate sent now ≡ true) → ¬ IsDue sent now)
unfolding is_recent
is_recent_iff same_rate none now = (λ _. tt, λ h _. cc)
is_recent_iff same_rate (some at) now = (λ h. ground arith, λ h d. ground arith)

-- New progress of a running task is always stored; it is broadcast when it reaches its total or the
-- last broadcast was 500 ms ago or more, and only then.
pub progress_lem :
    (same_rate : ℕ → ℕ → Bool) (r : ℕ) (p : Progress) (now : ℕ) (s : Store) (e : Entry)
    → s.heap r ≡ some e
    → is_running e.info.status ≡ true
    → is_stored same_rate e.info.progress p ≡ false
    → (e' : Entry) × ((progress same_rate r p now s).heap r ≡ some e')
      × (e'.info ≡ record e.info { progress = some p })
      × ((((is_complete same_rate p ≡ true) ⊎ IsDue e.progress_sent now)
            × (length (progress same_rate r p now s).events ≡ length s.events + 1)
            × (e'.progress_sent ≡ some now))
          ⊎ ((is_complete same_rate p ≡ false)
              × (¬ IsDue e.progress_sent now)
              × ((progress same_rate r p now s).events ≡ s.events)))
unfolding progress
progress_lem same_rate r p now s e at runs new = elim (Bool-cases (is_complete same_rate p)) [
  | inl done ↦ (
    record e { info = record e.info { progress = some p }; progress_sent = some now },
    ground (arith, ==_refl r),
    refl,
    inl (inl done, ground arith, refl),
  )
  | inr more ↦ elim (Bool-cases (is_recent same_rate e.progress_sent now)) [
    | inl recent ↦ (
      record e { info = record e.info { progress = some p } },
      ground (arith, ==_refl r),
      refl,
      inr (more, (is_recent_iff same_rate e.progress_sent now).1 recent, ground arith),
    )
    | inr due ↦ (
      record e { info = record e.info { progress = some p }; progress_sent = some now },
      ground (arith, ==_refl r),
      refl,
      inl (inr ((is_recent_iff same_rate e.progress_sent now).0 due), ground arith, refl),
    )
  ]
]
