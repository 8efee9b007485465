-- ===== src/Netagent/Agent/Reports.antt =====
-- When a status is written, and what is remembered of it.
use kubevirt_webgui.Base.{
  ℕ, ◌-◌, ◌<◌, ◌≡◌, refl, sym, subst, map, List, [], ◌∷◌, Str, ◌⊎◌, inl, inr, Bool, true, false,
  ◌&&◌, ◌||◌, Option, none, some, ltb, arith, Bool-cases,
}
use kubevirt_webgui.Base.Json.{Json, as_str}
use kubevirt_webgui.Base.Maps.{insert-same}
use kubevirt_webgui.Netagent.Plan.{Resolved}
use kubevirt_webgui.Netagent.Agent.{State}
use kubevirt_webgui.Netagent.Agent.Status.{Detail, Outcome, Status}
use kubevirt_webgui.Netagent.Agent.Passes.{
  Stable, Stable-discrete, Counters, Counters-discrete, same, stable, counters, counter_refresh,
  resolved_of, packets_in, Agent, uid, annotation, patch_status, is_current, is_some, report,
}

same_sound : {A : Type 0} (d : Discrete A) (a b : A) → same d a b ≡ true → a ≡ b
same_sound d a b h = ground arith

-- What is remembered of an interface's rules is what the detail of its outcome says.
abbrev pub SaysRules : Option Resolved → Option Detail → Type 0
SaysRules none none = Unit
SaysRules (some r) (some d) = r ≡ d.resolved
SaysRules none (some d) = true ≡ false
SaysRules (some r) none = true ≡ false

abbrev pub SaysRows : List (Str × State × Str × Option Resolved) → List (Str × Outcome) → Type 0
SaysRows [] [] = Unit
SaysRows ((i, state, message, rules) ∷ more) ((j, o) ∷ rest) =
    ((i ≡ j) × (state ≡ o.state) × (message ≡ o.message) × SaysRules rules o.detail)
    × SaysRows more rest
SaysRows [] (row ∷ rest) = true ≡ false
SaysRows (row ∷ more) [] = true ≡ false

-- What is remembered says what a status does of everything but the counters.
abbrev pub Says : Stable → Status → Type 0
Says last status = (last.0 ≡ status.state) × (last.1 ≡ status.message) × SaysRows last.2 status.rows

abbrev pub Counts : Option ℕ → Option Detail → Type 0
Counts none none = Unit
Counts (some n) (some d) = n ≡ d.packets
Counts none (some d) = true ≡ false
Counts (some n) none = true ≡ false

-- The counters that are remembered are those of the outcomes.
abbrev pub CountsRows : Counters → List (Str × Outcome) → Type 0
CountsRows [] [] = Unit
CountsRows (n ∷ more) ((i, o) ∷ rest) = Counts n o.detail × CountsRows more rest
CountsRows [] (row ∷ rest) = true ≡ false
CountsRows (n ∷ more) [] = true ≡ false

-- What is remembered for a machine says what a status does, but for counters that are not a minute old.
abbrev pub Remembers : ℕ → Status → Option (Stable × Counters × ℕ) → Type 0
Remembers now status row =
    (last : Stable) × (packets : Counters) × (written : ℕ) × (row ≡ some (last, packets, written))
    × Says last status
    × (CountsRows packets status.rows ⊎ (now - written < 60))

detail-SaysRules : (o : Option Detail) → SaysRules (resolved_of o) o
detail-SaysRules none = tt
detail-SaysRules (some d) = refl

rows-SaysRows :
    (rows : List (Str × Outcome))
    → SaysRows
        (map
          (λ (row : Str × Outcome). (row.0, row.1.state, row.1.message, resolved_of row.1.detail))
          rows)
        rows
rows-SaysRows [] = tt
rows-SaysRows ((i, o) ∷ rest) = ((refl, refl, refl, detail-SaysRules o.detail), rows-SaysRows rest)

stable-Says : (status : Status) → Says (stable status) status
unfolding stable
stable-Says status = (refl, refl, rows-SaysRows status.rows)

detail-Counts : (o : Option Detail) → Counts (packets_in o) o
detail-Counts none = tt
detail-Counts (some d) = refl

rows-CountsRows :
    (rows : List (Str × Outcome))
    → CountsRows (map (λ (row : Str × Outcome). packets_in row.1.detail) rows) rows
rows-CountsRows [] = tt
rows-CountsRows ((i, o) ∷ rest) = (detail-Counts o.detail, rows-CountsRows rest)

counters-CountsRows : (status : Status) → CountsRows (counters status) status.rows
unfolding counters
counters-CountsRows status = rows-CountsRows status.rows

tests_passed :
    (a b c d : Bool)
    → (a && (b || c) && d) ≡ true
    → (a ≡ true) × ((b ≡ true) ⊎ (c ≡ true)) × (d ≡ true)
tests_passed true true c true h = (refl, inl refl, refl)
tests_passed true false true true h = (refl, inr refl, refl)
tests_passed true false false d h = cc
tests_passed true true c false h = cc
tests_passed true false true false h = cc
tests_passed false b c d h = cc

is_current_sound :
    (now : ℕ) (on_vmi : Bool) (status : Status) (row : Option (Stable × Counters × ℕ))
    → is_current now on_vmi (stable status) (counters status) row ≡ true
    → Remembers now status row × (on_vmi ≡ true)
unfolding is_current
is_current_sound now on_vmi status none h = cc
is_current_sound now on_vmi status (some (last, packets, written)) h =
    let (a, b, c) =
      tests_passed (same Stable-discrete last (stable status))
        (same Counters-discrete packets (counters status)) (ltb (now - written) counter_refresh)
        on_vmi h in
    (
      (
        last,
        packets,
        written,
        refl,
        subst (λ l. Says l status) (sym (same_sound Stable-discrete last (stable status) a))
            (stable-Says status),
        elim b [
          | inl x ↦ inl (
              subst (λ p. CountsRows p status.rows)
                (sym (same_sound Counters-discrete packets (counters status) x))
                (counters-CountsRows status))
          | inr y ↦ inr (ground arith)
        ],
      ),
      c,
    )

-- Whether the annotation is on the machine.
abbrev pub has_status : Json → Bool
has_status vmi = is_some (as_str (annotation "kubevirt-webgui/offsubnet-nat-status" vmi))

-- After a report the agent remembers, for the machine, what the new status says: its state and message
-- and, of each interface in order, the state, the message and the rules; and its counters too, unless
-- others were written less than a minute ago. And either nothing was sent, which happens only while the machine
-- carries a status, or the new status was sent as it is, if the machine has a path.
pub report_lem :
    (now later : ℕ) (vmi : Json) (status : Status) (agent : Agent)
    → Remembers now status ((report now later vmi status agent).written (uid vmi))
      × (((report now later vmi status agent ≡ agent) × (has_status vmi ≡ true))
          ⊎ ((report now later vmi status agent).patches
              ≡ (patch_status vmi (some (status, agent.node, later)) agent).patches))
unfolding report
report_lem now later vmi status agent =
    elim (Bool-cases (
      is_current now (has_status vmi) (stable status) (counters status)
        (agent.written (uid vmi)))) [
          | inl current ↦
              let (r, on) =
                is_current_sound now (has_status vmi) status (agent.written (uid vmi)) current in
              rw current (r, inl (refl, on))
          | inr due ↦ rw due (
            (
              stable status,
              counters status,
              later,
              insert-same (uid vmi) (stable status, counters status, later) agent.written,
              stable-Says status,
              inl (counters-CountsRows status),
            ),
            inr refl,
          )
        ]
