-- ===== src/Tasks/Acts.antt =====
-- What each call on a task other than `spawn` does to the store.
use kubevirt_webgui.Base.{
  ℕ, ◌≡◌, refl, ap, Bool, true, false, Option, none, some, Str, arith, if◌then◌else◌, All,
  Option-cases, Bool-cases, inl, inr,
}
use kubevirt_webgui.Tasks.{
  TaskStatus, TaskInfo, TaskEvent, Progress, Entry, LogLine, Store, is_running,
}
use kubevirt_webgui.Tasks.Handle.{put, send, log, progress, clear_progress, finish}
use kubevirt_webgui.Tasks.Manager.{attach, abort}
use kubevirt_webgui.Tasks.Updates.{
  bare, IsUpdate, IsUpdate-end, log-IsUpdate, Evolves, Evolves-refl, write-Evolves,
}

-- An event goes to the user of its task.
abbrev pub IsAddressed : TaskEvent → Type 0
IsAddressed ev = ev.user ≡ ev.task.user

-- What a call other than `spawn` does to the store.
pub record Acts (s t : Store) : Type 0 where
  pub evolves : Evolves s.heap t.heap
  pub next : t.next ≡ s.next
  pub tasks : t.tasks ≡ s.tasks
  pub events : All IsAddressed s.events → All IsAddressed t.events

Acts-refl : (s : Store) → Acts s s
Acts-refl s = record { evolves = Evolves-refl s.heap; next = refl; tasks = refl; events = λ h. h }

put-Acts :
    (s : Store) (r : ℕ) (e e' : Entry) → s.heap r ≡ some e → IsUpdate e e' → Acts s (put r e' s)
put-Acts s r e e' p u = record {
  evolves = write-Evolves s.heap r e e' p u;
  next = refl;
  tasks = refl;
  events = λ h. h;
}

send-Acts :
    (s t : Store) (line : Option LogLine) (info : TaskInfo) → Acts s t → Acts s (send line info t)
send-Acts s t line info a = record {
  evolves = a.evolves;
  next = a.next;
  tasks = a.tasks;
  events = λ h. (refl, a.events h);
}

pub log-Acts : (r : ℕ) (text : Str) (now : ℕ) (s : Store) → Acts s (log r text now s)
unfolding log
log-Acts r text now s = elim (Option-cases (s.heap r)) [
  | inl free ↦ rw (free, log) (Acts-refl s)
  | inr (e, found) ↦
      rw (found, log)
        (send-Acts s _ (some (record { ts = now; text = text })) e.info
          (put-Acts s r e _ found (log-IsUpdate e (record { ts = now; text = text }))))
]

same_info : (e e' : Entry) → e'.info ≡ e.info → e'.log ≡ e.log → IsUpdate e e'
same_info e e' p q = record {
  sound = λ v. record { bounded = rw q v.bounded; ended = rw p v.ended };
  keeps = record { id = ap (λ i. i.id) p; user = ap (λ i. i.user) p; settled = λ _. ap bare p };
}

progress-IsUpdate :
    (e : Entry) (p : Option Progress) (sent : Option ℕ)
    → IsUpdate e (record e { info = record e.info { progress = p }; progress_sent = sent })
progress-IsUpdate e p sent = record {
  sound = λ v. record { bounded = v.bounded; ended = v.ended };
  keeps = record { id = refl; user = refl; settled = λ _. refl };
}

pub attach-Acts : (r future : ℕ) (s : Store) → Acts s (attach r future s)
unfolding attach
attach-Acts r future s = elim (Option-cases (s.heap r)) [
  | inl free ↦ rw (free, attach) (Acts-refl s)
  | inr (e, found) ↦ rw (found, attach) (put-Acts s r e _ found (same_info e _ refl refl))
]

pub abort-Acts : (r : ℕ) (s : Store) → Acts s (abort r s)
unfolding abort
abort-Acts r s = elim (Option-cases (s.heap r)) [
  | inl free ↦ rw (free, abort) (Acts-refl s)
  | inr (e, found) ↦ elim (Option-cases e.abort) [
    | inl idle ↦ rw (found, abort, idle) (Acts-refl s)
    | inr (future, armed) ↦
        rw (found, abort, armed)
          (let a = put-Acts s r e (record e { abort = none }) found (same_info e _ refl refl) in
            record { evolves = a.evolves; next = refl; tasks = refl; events = λ h. h })
  ]
]

pub finish-Acts :
    (r : ℕ) (status : TaskStatus) (message : Option Str) (now : ℕ) (s : Store)
    → is_running status ≡ false
    → Acts s (finish r status message now s)
unfolding finish
finish-Acts r status message now s ended = elim (Option-cases (s.heap r)) [
  | inl free ↦ rw (free, finish) (Acts-refl s)
  | inr (e, found) ↦ elim (Bool-cases (is_running e.info.status)) [
    | inl runs ↦
        rw (found, finish, runs)
          (send-Acts s _ none _ (
            put-Acts s r e _ found (
              IsUpdate-end e _ (λ v. ground arith)
                (record { id = refl; user = refl; settled = λ done. cc }))))
    | inr over ↦ rw (found, finish, over) (Acts-refl s)
  ]
]

pub clear_progress-Acts : (r : ℕ) (s : Store) → Acts s (clear_progress r s)
unfolding clear_progress
clear_progress-Acts r s = elim (Option-cases (s.heap r)) [
  | inl free ↦ rw (free, clear_progress) (Acts-refl s)
  | inr (e, found) ↦ elim (Option-cases e.info.progress) [
    | inl bar ↦ rw (found, clear_progress, bar) (Acts-refl s)
    | inr (p, bar) ↦
        rw (found, clear_progress, bar)
          (send-Acts s _ none _ (put-Acts s r e _ found (progress-IsUpdate e none e.progress_sent)))
  ]
]

if-Acts : (b : Bool) (s t u : Store) → Acts s t → Acts s u → Acts s (if b then t else u)
if-Acts true s t u h k = h
if-Acts false s t u h k = k

pub progress-Acts :
    (same_rate : ℕ → ℕ → Bool) (r : ℕ) (p : Progress) (now : ℕ) (s : Store)
    → Acts s (progress same_rate r p now s)
unfolding progress
progress-Acts same_rate r p now s = elim (Option-cases (s.heap r)) [
  | inl free ↦ rw (free, progress) (Acts-refl s)
  | inr (e, found) ↦
      rw (found, progress)
        (if-Acts _ s _ _ (Acts-refl s) (
          if-Acts _ s _ _ (put-Acts s r e _ found (progress-IsUpdate e (some p) e.progress_sent)) (
            send-Acts s _ none _
              (put-Acts s r e _ found (progress-IsUpdate e (some p) (some now))))))
]
