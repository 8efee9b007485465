-- ===== src/Tasks/Updates.antt =====
-- How the calls on tasks change single entries, and the heap of them.
use kubevirt_webgui.Base.{
  ℕ, ◌≤◌, ◌≡◌, refl, ap, subst, ◌∙◌, ◌↔◌, true, false, List, [], ◌∷◌, Option, none, some, arith,
  length, drop_first, length-append, length-drop_first, ◌==◌, Bool-cases, inl, inr,
}
use kubevirt_webgui.Tasks.{max_lines, TaskInfo, Entry, LogLine, is_running, write}
use kubevirt_webgui.Tasks.Handle.{push_line, log}

-- A log is bounded, and a task has an end time exactly when it does not run.
pub record IsSound (e : Entry) : Type 0 where
  pub bounded : length e.log ≤ max_lines
  pub ended : (is_running e.info.status ≡ true) ↔ (e.info.ended_at ≡ none)

-- What is said of a task, all but the progress bar.
abbrev pub bare : TaskInfo → TaskInfo
bare info = record info { progress = none }

-- A task keeps its id and its user; once ended, all of its info record but the progress bar.
pub record Keeps (e e' : Entry) : Type 0 where
  pub id : e'.info.id ≡ e.info.id
  pub user : e'.info.user ≡ e.info.user
  pub settled : is_running e.info.status ≡ false → bare e'.info ≡ bare e.info

pub Keeps-refl : (e : Entry) → Keeps e e
Keeps-refl e = record { id = refl; user = refl; settled = λ _. refl }

pub Keeps-trans : (a b c : Entry) → Keeps a b → Keeps b c → Keeps a c
Keeps-trans a b c h k = record {
  id = k.id ∙ h.id;
  user = k.user ∙ h.user;
  settled = λ done.
      let same = h.settled done in k.settled (ap (λ i. is_running i.status) same ∙ done) ∙ same;
}

push_line_bound :
    (line : LogLine) (log : List LogLine)
    → length log ≤ max_lines
    → length (push_line line log) ≤ max_lines
push_line_bound line log h = ground (
  arith,
  length-append (drop_first log) (line ∷ []),
  length-append log (line ∷ []),
  length-drop_first log,
)

-- What a call may do to one entry.
pub record IsUpdate (e e' : Entry) : Type 0 where
  pub sound : IsSound e → IsSound e'
  pub keeps : Keeps e e'

pub IsUpdate-end :
    (e : Entry) (info : TaskInfo)
    → (IsSound e → (is_running info.status ≡ true) ↔ (info.ended_at ≡ none))
    → Keeps e (record e { info = info })
    → IsUpdate e (record e { info = info })
IsUpdate-end e info ended keeps = record {
  sound = λ v. record { bounded = v.bounded; ended = ended v };
  keeps = keeps;
}

pub log-IsUpdate :
    (e : Entry) (line : LogLine) → IsUpdate e (record e { log = push_line line e.log })
log-IsUpdate e line = record {
  sound = λ v. record { bounded = push_line_bound line e.log v.bounded; ended = v.ended };
  keeps = record { id = refl; user = refl; settled = λ _. refl };
}

-- How a call other than `spawn` changes the entries: each is updated, and none is made.
pub record Evolves (h h' : ℕ → Option Entry) : Type 0 where
  pub kept : (k : ℕ) (e : Entry) → h k ≡ some e → (e' : Entry) × (h' k ≡ some e') × IsUpdate e e'
  pub made : (k : ℕ) (e' : Entry) → h' k ≡ some e' → (e : Entry) × (h k ≡ some e) × IsUpdate e e'

pub IsUpdate-refl : (e : Entry) → IsUpdate e e
IsUpdate-refl e = record { sound = λ v. v; keeps = Keeps-refl e }

pub Evolves-refl : (h : ℕ → Option Entry) → Evolves h h
Evolves-refl h = record {
  kept = λ k e p. (e, p, IsUpdate-refl e);
  made = λ k e p. (e, p, IsUpdate-refl e);
}

pub write-Evolves :
    (h : ℕ → Option Entry) (r : ℕ) (e e' : Entry)
    → h r ≡ some e
    → IsUpdate e e'
    → Evolves h (write h r e')
write-Evolves h r e e' p u = record {
  kept = λ k d q. elim (Bool-cases (k == r)) [
    | inl same ↦ (e', ground arith, subst (λ x. IsUpdate x e') (ground arith) u)
    | inr other ↦ (d, ground arith, IsUpdate-refl d)
  ];
  made = λ k d q. elim (Bool-cases (k == r)) [
    | inl same ↦ (e, ground arith, subst (λ x. IsUpdate e x) (ground arith) u)
    | inr other ↦ (d, ground arith, IsUpdate-refl d)
  ];
}
