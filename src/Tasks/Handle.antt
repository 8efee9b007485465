-- ===== src/Tasks/Handle.antt =====
-- The running task's side: `TaskHandle` (src/tasks.rs). A handle is the number of its entry; each
-- method reads its entry under the locks, changes it, and broadcasts. `Store` is the whole state.
use kubevirt_webgui.Base.{
  ℕ, ◌-◌, Bool, true, false, not, ◌&&◌, ◌||◌, List, [], ◌∷◌, ◌++◌, Option, none, some, Str, str_eq,
  ltb, leb, ◌==◌, if◌then◌else◌, length, drop_first,
}
use kubevirt_webgui.Tasks.{
  max_lines, progress_every, TaskStatus, Progress, TaskInfo, LogLine, Entry, Store, is_running,
  write,
}

-- `f64`'s comparison of the bit patterns, which is not theirs (NaN, zeros).
module _ (same_rate : ℕ → ℕ → Bool) where
  same_option : {A : Type 0} → (A → A → Bool) → Option A → Option A → Bool
  same_option eq none none = true
  same_option eq (some a) (some b) = eq a b
  same_option eq _ _ = false

  -- The derived `PartialEq`.
  unfoldable pub same_progress : Progress → Progress → Bool
  unfolding same_option
  same_progress p q =
      p.done == q.done
      && same_option ◌==◌ p.total q.total
      && str_eq p.unit q.unit
      && same_option same_rate p.rate q.rate
      && same_option str_eq p.detail q.detail

  -- Whether the progress reaches its total.
  abbrev pub is_complete : Progress → Bool
  is_complete p = elim p.total [ some total ↦ leb total p.done | none ↦ false ]

abbrev pub send : Option LogLine → TaskInfo → Store → Store
send line info s = record s {
  events = record { user = info.user; task = info; line = line } ∷ s.events;
}

abbrev pub put : ℕ → Entry → Store → Store
put r e s = record s { heap = write s.heap r e }

-- At most `LOG_LINES` lines: the oldest goes.
abbrev pub push_line : LogLine → List LogLine → List LogLine
push_line line log = (if leb max_lines (length log) then drop_first log else log) ++ line ∷ []

-- Append a line to the task log.
unfoldable pub log : ℕ → Str → ℕ → Store → Store
log r text now s = elim (s.heap r) [
  | none ↦ s
  | some e ↦
      let line : LogLine = record { ts = now; text = text } in
      send (some line) e.info (put r (record e { log = push_line line e.log }) s)
]

module _ (same_rate : ℕ → ℕ → Bool) where
  unfoldable pub is_stored : Option Progress → Progress → Bool
  is_stored none p = false
  is_stored (some q) p = same_progress same_rate q p

  -- `elapsed` stops at zero.
  unfoldable pub is_recent : Option ℕ → ℕ → Bool
  is_recent none now = false
  is_recent (some at) now = ltb (now - at) progress_every

  -- Report progress. What is throttled is stored and not sent.
  unfoldable pub progress : ℕ → Progress → ℕ → Store → Store
  progress r p now s = elim (s.heap r) [
    | none ↦ s
    | some e ↦
        if not (is_running e.info.status) || is_stored e.info.progress p
        then s
        else (if not (is_complete same_rate p) && is_recent e.progress_sent now
            then put r (record e { info = record e.info { progress = some p } }) s
            else send none (record e.info { progress = some p })
                (put r
                  (record e {
                    info = record e.info { progress = some p };
                    progress_sent = some now;
                  })
                  s))
  ]

-- Clear the progress bar.
unfoldable pub clear_progress : ℕ → Store → Store
clear_progress r s = elim (s.heap r) [
  | none ↦ s
  | some e ↦ elim e.info.progress [
    | none ↦ s
    | some p ↦
        send none (record e.info { progress = none })
          (put r (record e { info = record e.info { progress = none } }) s)
  ]
]

abbrev pub finished : TaskStatus → Option Str → ℕ → TaskInfo → TaskInfo
finished status message now info = record info {
  status = status;
  message = message;
  ended_at = some now;
}

-- The first end of a task stands.
unfoldable pub finish : ℕ → TaskStatus → Option Str → ℕ → Store → Store
finish r status message now s = elim (s.heap r) [
  | none ↦ s
  | some e ↦
      if is_running e.info.status
      then send none (finished status message now e.info)
          (put r (record e { info = finished status message now e.info }) s)
      else s
]
