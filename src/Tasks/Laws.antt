-- ===== src/Tasks/Laws.antt =====
-- What every interleaving of the calls on tasks keeps.
use kubevirt_webgui.Base.{
  ℕ, ◌≤◌, ◌≡◌, refl, sym, subst, inl, inr, Bool, List, [], ◌∷◌, none, some, Str, arith, length,
  drop_first, length-append, length-drop_first, ◌==◌, All, Bool-cases, Option-cases,
}
use kubevirt_webgui.Tasks.{max_tasks, TaskTarget, Entry, Store, empty}
use kubevirt_webgui.Tasks.Manager.{spawn, push_task, new_entry, new_info}
use kubevirt_webgui.Tasks.Runs.{
  Step, spawns, attaches, logs, progresses, clears, finishes, aborts, Reach, here, next,
}
use kubevirt_webgui.Tasks.Updates.{IsSound, Keeps, Keeps-refl, Keeps-trans}
use kubevirt_webgui.Tasks.Acts.{
  IsAddressed, Acts, log-Acts, attach-Acts, abort-Acts, finish-Acts, clear_progress-Acts,
  progress-Acts,
}

-- At most `KEEP` tasks are listed, all of them made; every entry is sound; every event goes to the
-- user of its task.
pub record IsValid (s : Store) : Type 0 where
  pub free : (k : ℕ) → s.next ≤ k → s.heap k ≡ none
  pub sound : (k : ℕ) (e : Entry) → s.heap k ≡ some e → IsSound e
  pub bounded : length s.tasks ≤ max_tasks
  pub events : All IsAddressed s.events

pub empty-IsValid : IsValid empty
unfolding empty
empty-IsValid = record {
  free = λ k _. refl;
  sound = λ k e p. cc;
  bounded = omega arith;
  events = tt;
}

IsSound-after :
    (s t : Store) → Acts s t → IsValid s → (k : ℕ) (e : Entry) → t.heap k ≡ some e → IsSound e
IsSound-after s t a v k e p = let (d, q, u) = a.evolves.made k e p in u.sound (v.sound k d q)

free_after : (s t : Store) → Acts s t → IsValid s → (k : ℕ) → t.next ≤ k → t.heap k ≡ none
free_after s t a v k h = elim (Option-cases (t.heap k)) [
  | inl free ↦ free
  | inr (e, p) ↦
      let (d, q, u) = a.evolves.made k e p in
      let unused = v.free k (subst (λ n. n ≤ k) a.next h) in cc
]

Acts-IsValid : (s t : Store) → Acts s t → IsValid s → IsValid t
Acts-IsValid s t a v = record {
  free = free_after s t a v;
  sound = IsSound-after s t a v;
  bounded = subst (λ l. length l ≤ max_tasks) (sym a.tasks) v.bounded;
  events = a.events v.events;
}

push_task_bound :
    (r : ℕ) (tasks : List ℕ) → length tasks ≤ max_tasks → length (push_task r tasks) ≤ max_tasks
push_task_bound r tasks h = ground (
  arith,
  length-append (drop_first tasks) (r ∷ []),
  length-append tasks (r ∷ []),
  length-drop_first tasks,
)

new_entry-IsSound :
    (user kind : Str) (target : TaskTarget) (description : Str) (started : ℕ) (s : Store)
    → IsSound (new_entry (new_info user kind target description started s))
new_entry-IsSound user kind target description started s = record {
  bounded = omega arith;
  ended = (λ _. refl, λ _. refl);
}

spawn-IsValid :
    (user kind : Str) (target : TaskTarget) (description : Str) (started : ℕ) (s : Store)
    → IsValid s
    → IsValid (spawn user kind target description started s).2
unfolding spawn
spawn-IsValid user kind target description started s v = record {
  free = λ k h. ground (arith, v.free k);
  sound = λ k e p. elim (Bool-cases (k == s.next)) [
    | inl new ↦
        subst IsSound (ground arith) (new_entry-IsSound user kind target description started s)
    | inr old ↦ v.sound k e (ground arith)
  ];
  bounded = push_task_bound s.next s.tasks v.bounded;
  events = (refl, v.events);
}

spawn-kept :
    (user kind : Str) (target : TaskTarget) (description : Str) (started : ℕ) (s : Store)
    → IsValid s
    → (k : ℕ) (e : Entry) → s.heap k ≡ some e
    → (spawn user kind target description started s).2.heap k ≡ some e
unfolding spawn
spawn-kept user kind target description started s v k e p = ground (arith, v.free k)

module _ (same_rate : ℕ → ℕ → Bool) where
  Step-IsValid : {s t : Store} → Step same_rate s t → IsValid s → IsValid t
  Step-IsValid {s} (spawns user kind target description started) v =
      spawn-IsValid user kind target description started s v
  Step-IsValid {s} (attaches r future) v = Acts-IsValid s _ (attach-Acts r future s) v
  Step-IsValid {s} (logs r text now) v = Acts-IsValid s _ (log-Acts r text now s) v
  Step-IsValid {s} (progresses r bar now) v =
      Acts-IsValid s _ (progress-Acts same_rate r bar now s) v
  Step-IsValid {s} (clears r) v = Acts-IsValid s _ (clear_progress-Acts r s) v
  Step-IsValid {s} (finishes r status message now ended) v =
      Acts-IsValid s _ (finish-Acts r status message now s ended) v
  Step-IsValid {s} (aborts r) v = Acts-IsValid s _ (abort-Acts r s) v

  abbrev pub KeptIn : Store → ℕ → Entry → Type 0
  KeptIn t k e = (e' : Entry) × (t.heap k ≡ some e') × Keeps e e'

  Acts-KeptIn : (s t : Store) → Acts s t → (k : ℕ) (e : Entry) → s.heap k ≡ some e → KeptIn t k e
  Acts-KeptIn s t a k e p = let (e', q, u) = a.evolves.kept k e p in (e', q, u.keeps)

  Step-KeptIn :
      {s t : Store}
      → Step same_rate s t
      → IsValid s
      → (k : ℕ) (e : Entry) → s.heap k ≡ some e
      → KeptIn t k e
  Step-KeptIn {s} (spawns user kind target description started) v k e p =
      (e, spawn-kept user kind target description started s v k e p, Keeps-refl e)
  Step-KeptIn {s} (attaches r future) v k e p = Acts-KeptIn s _ (attach-Acts r future s) k e p
  Step-KeptIn {s} (logs r text now) v k e p = Acts-KeptIn s _ (log-Acts r text now s) k e p
  Step-KeptIn {s} (progresses r bar now) v k e p =
      Acts-KeptIn s _ (progress-Acts same_rate r bar now s) k e p
  Step-KeptIn {s} (clears r) v k e p = Acts-KeptIn s _ (clear_progress-Acts r s) k e p
  Step-KeptIn {s} (finishes r status message now ended) v k e p =
      Acts-KeptIn s _ (finish-Acts r status message now s ended) k e p
  Step-KeptIn {s} (aborts r) v k e p = Acts-KeptIn s _ (abort-Acts r s) k e p

  -- Whatever calls are made, and however they interleave: at most 1000 tasks are listed, a log has at
  -- most 2000 lines, a task has an end time exactly when it is not running, and every event goes to
  -- the user of its task.
  pub Reach-IsValid : {s t : Store} → IsValid s → Reach same_rate s t → IsValid t
  Reach-IsValid v here = v
  Reach-IsValid v (next r step) = Step-IsValid step (Reach-IsValid v r)

  -- A task stays in the store with its id and its user; once it has ended, its status, message and end
  -- time, and all else that its info record says but for the progress bar, never change again. Its log
  -- is not part of that record and may still grow.
  pub Reach-KeptIn :
      {s t : Store}
      → IsValid s
      → Reach same_rate s t
      → (k : ℕ) (e : Entry) → s.heap k ≡ some e
      → KeptIn t k e
  Reach-KeptIn v here k e p = (e, p, Keeps-refl e)
  Reach-KeptIn v (next r step) k e p =
      let (e', q, h) = Reach-KeptIn v r k e p in
      let (e'', q', h') = Step-KeptIn step (Reach-IsValid v r) k e' q in
      (e'', q', Keeps-trans e e' e'' h h')
