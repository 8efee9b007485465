-- ===== src/Netagent/Agent/Status.antt =====
-- One pass over the pods of a machine, and the status that sums it up (`apply` and `converge` in
-- src/netagent/mod.rs).
use kubevirt_webgui.Base.{
  ℕ, suc, Bool, true, false, not, List, [], ◌∷◌, ◌++◌, map, Option, none, some, Str, codes, str_eq,
  ltb, leb, join, keep, if◌then◌else◌, Result, ok, err, ◌>>=◌,
}
use kubevirt_webgui.Base.Json.{Json}
use kubevirt_webgui.Netagent.Plan.{Resolved, Current, commands}
use kubevirt_webgui.Netagent.Annotation.{Entry}
use kubevirt_webgui.Netagent.Counts.{packet_counts}
use kubevirt_webgui.Netagent.Agent.{
  State, disabled, applied, pending, failed, Macs, Look, Refusal, resolve,
}

pub record Detail : Type 0 where
  pub resolved : Resolved
  pub packets : ℕ

-- One interface's outcome.
pub record Outcome : Type 0 where
  pub state : State
  pub message : Str
  pub detail : Option Detail

-- The status that is written on the machine: one row for each interface.
pub record Status : Type 0 where
  pub state : State
  pub message : Str
  pub rows : List (Str × Outcome)

abbrev pub rank : State → ℕ
rank failed = 3
rank pending = 2
rank applied = 1
rank disabled = 0

-- The worse outcome wins; of two that are as bad, the earlier.
abbrev pub worse : Outcome → Outcome → Outcome
worse old new = if ltb (rank old.state) (rank new.state) then new else old

unfoldable pub add_row : Str → Outcome → List (Str × Outcome) → List (Str × Outcome)
add_row interface outcome [] = (interface, outcome) ∷ []
add_row interface outcome ((i, old) ∷ rest) =
    let more = add_row interface outcome rest in
    if str_eq i interface then (i, worse old outcome) ∷ rest else (i, old) ∷ more

unfoldable pub add_rows : List (Str × Outcome) → List (Str × Outcome) → List (Str × Outcome)
unfolding add_row
add_rows [] rows = rows
add_rows ((i, o) ∷ rest) rows = add_rows rest (add_row i o rows)

-- `max_by_key`: the last of the highest.
unfoldable pub worst_from : State → List (Str × Outcome) → State
worst_from best [] = best
worst_from best ((i, o) ∷ rest) =
    worst_from (if leb (rank best) (rank o.state) then o.state else best) rest

unfoldable pub worst : List (Str × Outcome) → State
unfolding worst_from
worst [] = applied
worst ((i, o) ∷ rest) = worst_from o.state rest

abbrev pub is_disabled : State → Bool
is_disabled disabled = true
is_disabled _ = false

abbrev pub is_quiet : State → Bool
is_quiet disabled = true
is_quiet applied = true
is_quiet _ = false

abbrev pub is_none : List (Str × Outcome) → Bool
is_none [] = true
is_none (r ∷ rest) = false

abbrev pub overall : List (Str × Outcome) → State
overall rows =
    if is_disabled (worst rows) then disabled else if is_none rows then disabled else worst rows

abbrev pub complaint : Str × Outcome → Str
complaint (i, o) = i ++ (codes ": " ++ o.message)

unfoldable pub summary : List (Str × Outcome) → Status
unfolding add_rows worst
summary outcomes =
    let rows = add_rows outcomes [] in
    record {
      state = overall rows;
      message =
          join (codes "; ")
            (map complaint (keep (λ (row : Str × Outcome). not (is_quiet row.1.state)) rows));
      rows = rows;
    }

-- What the host answers for one pod: its bridges, the looks at gateways in the order of the entries,
-- what the pod has, what each command answers, and the counters afterwards.
pub record Pod : Type 0 where
  pub bridges : Result Str (List Str)
  pub looks : ℕ → Look
  pub current : Result Str Current
  pub run : List Str → Result Str Str
  pub counters : Result Str Str

-- The commands run one after the other until one fails; their number.
unfoldable pub run_all : (List Str → Result Str Str) → ℕ → List (List Str) → Result Str ℕ
run_all run n [] = ok n
run_all run n (command ∷ rest) = do _ ← run command; run_all run (suc n) rest

unfoldable pub converge : Pod → List Resolved → Result Str ℕ
unfolding commands run_all
converge pod desired = do current ← pod.current; run_all pod.run 0 (commands desired current)

abbrev pub plain_outcome : State → Str → Outcome
plain_outcome state message = record { state = state; message = message; detail = none }

abbrev pub packets_of : List (Str × ℕ) → Str → ℕ
packets_of [] interface = 0
packets_of ((i, n) ∷ rest) interface = if str_eq i interface then n else packets_of rest interface

abbrev pub counts_of : Result Str Str → List (Str × ℕ)
counts_of (err e) = []
counts_of (ok listing) = packet_counts listing

abbrev pub result_of : Result Str ℕ → State × Str
result_of (ok n) = (applied, [])
result_of (err e) = (failed, e)

unfoldable pub outcome_of : Result Str ℕ → List (Str × ℕ) → Resolved → Str × Outcome
unfolding str_eq
outcome_of result counts r = (
  r.interface,
  record {
    state = (result_of result).0;
    message = (result_of result).1;
    detail = some (record { resolved = r; packets = packets_of counts r.interface });
  },
)

module _ (parse_ip : Str → Option ℕ) (print_ip : ℕ → Str) (show : ℕ → Str) where
  -- What is wanted in one pod, with the outcomes of what cannot be.
  abbrev pub Wanted : Type 0
  Wanted = List (Str × Outcome) × List Resolved × Macs

  abbrev pub add_wanted :
      Str
      → Result Refusal Resolved
      → List (Str × Outcome)
      → List Resolved
      → List (Str × Outcome) × List Resolved
  add_wanted interface (ok r) outcomes desired = (outcomes, desired ++ r ∷ [])
  add_wanted interface (err (state, message)) outcomes desired =
      (outcomes ++ (interface, plain_outcome state message) ∷ [], desired)

  unfoldable pub want :
      Json
      → List Str
      → (ℕ → Look)
      → ℕ
      → List Entry
      → List (Str × Outcome)
      → List Resolved
      → Macs
      → Wanted
  unfolding resolve
  want vmi bridges looks n [] outcomes desired macs = (outcomes, desired, macs)
  want vmi bridges looks n (entry ∷ rest) outcomes desired macs =
      let (r, macs') = resolve parse_ip print_ip show vmi entry bridges (looks n) macs in
      let (outcomes', desired') =
        if entry.enabled
        then add_wanted entry.interface r outcomes desired
        else (outcomes ++ (entry.interface, plain_outcome disabled []) ∷ [], desired) in
      want vmi bridges looks (suc n) rest outcomes' desired' (if entry.enabled then macs' else macs)

  -- What became of what was wanted.
  unfoldable pub settle : Pod → Wanted → List (Str × Outcome) × Macs
  unfolding converge outcome_of
  settle pod (outcomes, desired, macs) =
      (outcomes ++ map (outcome_of (converge pod desired) (counts_of pod.counters)) desired, macs)

  unfoldable pub pods_from :
      Json
      → List Entry
      → List Pod
      → List (Str × Outcome)
      → Macs
      → Result Str (List (Str × Outcome)) × Macs
  unfolding want settle
  pods_from vmi entries [] outcomes macs = (ok outcomes, macs)
  pods_from vmi entries (pod ∷ rest) outcomes macs = elim pod.bridges [
    | err e ↦ (err e, macs)
    | ok bridges ↦
        let (outcomes', macs') =
          settle pod (want vmi bridges pod.looks 0 entries outcomes [] macs) in
        pods_from vmi entries rest outcomes' macs'
  ]

  abbrev pub status_of : Result Str (List (Str × Outcome)) → Status
  status_of (err e) = record { state = failed; message = e; rows = [] }
  status_of (ok outcomes) = summary outcomes

  abbrev pub not_running : Str → Status
  not_running node = record {
    state = pending;
    message = codes "the VM's QEMU process is not running on " ++ (node ++ codes " yet");
    rows = [];
  }

  unfoldable pub apply : Str → Json → List Entry → List Pod → Macs → Status × Macs
  unfolding pods_from summary
  apply node vmi entries [] macs = (not_running node, macs)
  apply node vmi entries (pod ∷ pods) macs =
      let (outcomes, macs') = pods_from vmi entries (pod ∷ pods) [] macs in
      (status_of outcomes, macs')
