-- ===== src/Tasks/Runs.antt =====
-- Any interleaving of the calls on tasks, each taking its locks once: the step relation.
use kubevirt_webgui.Base.{
  ℕ, ◌≡◌, refl, Bool, true, false, Option, none, some, Str, codes, ◌++◌, Result, ok, err,
}
use kubevirt_webgui.Tasks.{TaskStatus, error, stopped, TaskTarget, Progress, Store, is_running}
use kubevirt_webgui.Tasks.Handle.{log, progress, clear_progress, finish}
use kubevirt_webgui.Tasks.Manager.{spawn, attach, abort, complete, end_stopped, stop, find}

-- `complete` and `stop` are several steps: other calls may come between them.
pub data Step (same_rate : ℕ → ℕ → Bool) (s : Store) : Store → Type 0 where
  spawns :
      (user kind : Str) (target : TaskTarget) (description : Str) (started : ℕ)
      → Step same_rate s (spawn user kind target description started s).2
  attaches : (r future : ℕ) → Step same_rate s (attach r future s)
  logs : (r : ℕ) (text : Str) (now : ℕ) → Step same_rate s (log r text now s)
  progresses : (r : ℕ) (p : Progress) (now : ℕ) → Step same_rate s (progress same_rate r p now s)
  clears : (r : ℕ) → Step same_rate s (clear_progress r s)
  finishes :
      (r : ℕ) (status : TaskStatus) (message : Option Str) (now : ℕ)
      → is_running status ≡ false
      → Step same_rate s (finish r status message now s)
  aborts : (r : ℕ) → Step same_rate s (abort r s)

pub data Reach (same_rate : ℕ → ℕ → Bool) (s : Store) : Store → Type 0 where
  here : Reach same_rate s s
  next : {t u : Store} → Reach same_rate s t → Step same_rate t u → Reach same_rate s u

module _ (same_rate : ℕ → ℕ → Bool) where
  complete-Reach :
      (r : ℕ) (outcome : Result Str (Option Str)) (now : ℕ) (s : Store)
      → Reach same_rate s (complete r outcome now s)
  unfolding complete
  complete-Reach r (ok none) now s =
      next (next here (logs r (codes "TASK OK") now)) (finishes r TaskStatus.ok none now refl)
  complete-Reach r (ok (some message)) now s =
      next (next (next here (logs r message now)) (logs r (codes "TASK OK") now))
        (finishes r TaskStatus.ok (some message) now refl)
  complete-Reach r (err message) now s =
      next (next here (logs r (codes "TASK ERROR: " ++ message) now))
        (finishes r error (some message) now refl)

  pub end_stopped-Reach : (r now : ℕ) (s : Store) → Reach same_rate s (end_stopped r now s)
  unfolding end_stopped
  end_stopped-Reach r now s =
      next (next (next here (aborts r)) (logs r (codes "TASK STOPPED by user request") now))
        (finishes r stopped (some (codes "stopped")) now refl)

  stop-Reach : (user id : Str) (now : ℕ) (s : Store) → Reach same_rate s (stop user id now s).1
  unfolding stop
  stop-Reach user id now s = go (find user id s)
    where
      go :
          (found : Option ℕ)
          → Reach same_rate s
              (elim found as (λ _. Bool × Store) [
                | none ↦ (false, s)
                | some r ↦ (true, end_stopped r now s)
              ]).1
      go none = here
      go (some r) = end_stopped-Reach r now s
