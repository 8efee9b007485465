-- ===== src/Netagent/Agent/Worst.antt =====
-- The status has one row for each interface, the worst of its outcomes.
use kubevirt_webgui.Base.{
  ℕ, ◌≤◌, ◌≡◌, ◌↔◌, refl, sym, ap, subst, ◌∙◌, inl, inr, Bool, true, false, List, [], ◌∷◌, Option,
  none, some, Str, str_eq, str_eq_iff, ltb, leb, arith, All, Bool-cases, if◌then◌else◌,
}
use kubevirt_webgui.Rpc.{lookup}
use kubevirt_webgui.Rpc.Installs.{IsUnique}
use kubevirt_webgui.Netagent.Agent.{State, disabled, applied, pending, failed}
use kubevirt_webgui.Netagent.Agent.Status.{
  Outcome, rank, worse, add_row, add_rows, worst_from, worst, overall, is_disabled, summary,
}

-- How bad a state is.
abbrev severity : State → ℕ
severity disabled = 0
severity applied = 1
severity pending = 2
severity failed = 3

-- Another outcome takes the place of the best so far only if it is strictly worse.
abbrev worse_of : Option Outcome → Outcome → Outcome
worse_of none o = o
worse_of (some p) o = if ltb (severity p.state) (severity o.state) then o else p

severity-rank : (s : State) → rank s ≡ severity s
severity-rank disabled = refl
severity-rank applied = refl
severity-rank pending = refl
severity-rank failed = refl

worse-severity : (p o : Outcome) → worse p o ≡ worse_of (some p) o
worse-severity p o = rw (severity-rank p.state, severity-rank o.state) refl

-- The first of the worst outcomes of an interface.
unfoldable pub worst_of : Str → List (Str × Outcome) → Option Outcome → Option Outcome
worst_of key [] best = best
worst_of key ((i, o) ∷ rest) best =
    worst_of key rest (if str_eq i key then some (worse_of best o) else best)

lookup-add_row :
    (key i : Str) (o : Outcome) (rows : List (Str × Outcome))
    → lookup key (add_row i o rows)
      ≡ (if str_eq i key then some (worse_of (lookup i rows) o) else lookup key rows)
unfolding lookup add_row
lookup-add_row key i o [] = ground arith
lookup-add_row key i o ((j, p) ∷ rest) = ground (
  arith,
  worse-severity p o,
  lookup-add_row key i o rest,
  str_eq_iff j i,
  str_eq_iff j key,
  str_eq_iff i key,
)

add_row-IsUnique :
    (i : Str) (o : Outcome) (rows : List (Str × Outcome))
    → IsUnique rows
    → IsUnique (add_row i o rows)
unfolding add_row lookup
add_row-IsUnique i o [] u = (refl, tt)
add_row-IsUnique i o ((j, p) ∷ rest) (fresh, u) = elim (Bool-cases (str_eq j i)) [
  | inl same ↦ rw same (fresh, u)
  | inr other ↦ rw other (
    ground (arith, lookup-add_row j i o rest, str_eq_iff i j, str_eq_iff j i),
    add_row-IsUnique i o rest u,
  )
]

add_rows-IsUnique : (os rows : List (Str × Outcome)) → IsUnique rows → IsUnique (add_rows os rows)
unfolding add_rows
add_rows-IsUnique [] rows u = u
add_rows-IsUnique ((i, o) ∷ rest) rows u =
    add_rows-IsUnique rest (add_row i o rows) (add_row-IsUnique i o rows u)

lookup-add_rows :
    (key : Str) (os rows : List (Str × Outcome))
    → lookup key (add_rows os rows) ≡ worst_of key os (lookup key rows)
unfolding add_rows worst_of
lookup-add_rows key [] rows = refl
lookup-add_rows key ((i, o) ∷ rest) rows =
    lookup-add_rows key rest (add_row i o rows)
    ∙ ap (worst_of key rest) (lookup-add_row key i o rows ∙ own (str_eq i key) refl)
  where
    own :
        (b : Bool)
        → str_eq i key ≡ b
        → (if b then some (worse_of (lookup i rows) o) else lookup key rows)
          ≡ (if b then some (worse_of (lookup key rows) o) else lookup key rows)
    own true e = ap (λ j. some (worse_of (lookup j rows) o)) ((str_eq_iff i key).0 e)
    own false e = refl

-- No outcome is worse than a rank.
abbrev pub AtMost : ℕ → List (Str × Outcome) → Type 0
AtMost n = All (λ (row : Str × Outcome). rank row.1.state ≤ n)

worse-le :
    (n : ℕ) (p o : Outcome)
    → (rank (worse p o).state ≤ n) ↔ ((rank p.state ≤ n) × (rank o.state ≤ n))
worse-le n p o = ground arith

add_row-AtMost :
    (n : ℕ) (i : Str) (o : Outcome) (rows : List (Str × Outcome))
    → AtMost n (add_row i o rows) ↔ ((rank o.state ≤ n) × AtMost n rows)
unfolding add_row
add_row-AtMost n i o [] = (λ h. h, λ h. h)
add_row-AtMost n i o ((j, p) ∷ rest) = elim (Bool-cases (str_eq j i)) [
  | inl same ↦ rw same (
    λ (w, r). let (a, b) = (worse-le n p o).0 w in (b, (a, r)),
    λ (b, (a, r)). ((worse-le n p o).1 (a, b), r),
  )
  | inr other ↦ rw other (
    λ (a, r). let (b, q) = (add_row-AtMost n i o rest).0 r in (b, (a, q)),
    λ (b, (a, q)). (a, (add_row-AtMost n i o rest).1 (b, q)),
  )
]

add_rows-AtMost :
    (n : ℕ) (os rows : List (Str × Outcome))
    → AtMost n (add_rows os rows) ↔ (AtMost n os × AtMost n rows)
unfolding add_rows
add_rows-AtMost n [] rows = (λ h. (tt, h), λ (t, h). h)
add_rows-AtMost n ((i, o) ∷ rest) rows = (
  λ h.
      let (r, m) = (add_rows-AtMost n rest (add_row i o rows)).0 h in
      let (b, q) = (add_row-AtMost n i o rows).0 m in ((b, r), q),
  λ ((b, r), q).
      (add_rows-AtMost n rest (add_row i o rows)).1 (r, (add_row-AtMost n i o rows).1 (b, q)),
)

AtMost-trans : (m n : ℕ) (rows : List (Str × Outcome)) → m ≤ n → AtMost m rows → AtMost n rows
AtMost-trans m n [] h a = tt
AtMost-trans m n (r ∷ rest) h (b, a) = (omega arith, AtMost-trans m n rest h a)

worst_from-AtMost :
    (best : State) (rows : List (Str × Outcome))
    → (rank best ≤ rank (worst_from best rows)) × AtMost (rank (worst_from best rows)) rows
unfolding worst_from
worst_from-AtMost best [] = (omega arith, tt)
worst_from-AtMost best ((i, o) ∷ rest) =
    let (b, a) =
      worst_from-AtMost (if leb (rank best) (rank o.state) then o.state else best) rest in
    (ground arith, (ground arith, a))

worst_from-le :
    (n : ℕ) (best : State) (rows : List (Str × Outcome))
    → rank best ≤ n
    → AtMost n rows
    → rank (worst_from best rows) ≤ n
unfolding worst_from
worst_from-le n best [] h a = h
worst_from-le n best ((i, o) ∷ rest) h (b, a) =
    worst_from-le n (if leb (rank best) (rank o.state) then o.state else best) rest (ground arith) a

same_state : (s : State) → (if is_disabled s then disabled else s) ≡ s
same_state disabled = refl
same_state applied = refl
same_state pending = refl
same_state failed = refl

overall-AtMost : (rows : List (Str × Outcome)) → AtMost (rank (overall rows)) rows
unfolding worst
overall-AtMost [] = tt
overall-AtMost ((i, o) ∷ rest) =
    subst (λ s. AtMost (rank s) ((i, o) ∷ rest)) (sym (same_state (worst_from o.state rest)))
      (worst_from-AtMost o.state rest)

overall-le : (n : ℕ) (rows : List (Str × Outcome)) → AtMost n rows → rank (overall rows) ≤ n
unfolding worst
overall-le n [] a = omega arith
overall-le n ((i, o) ∷ rest) (b, a) =
    subst (λ s. rank s ≤ n) (sym (same_state (worst_from o.state rest)))
      (worst_from-le n o.state rest b a)

-- Of any outcomes, in whatever order and from however many pods, the status has one row for each
-- interface, which is the first of its worst outcomes; and its state is the worst of all outcomes:
-- none is worse, and no milder state is as bad as all of them. Without outcomes it is `Disabled`.
pub summary_lem :
    (os : List (Str × Outcome))
    → IsUnique (summary os).rows
      × ((interface : Str) → lookup interface (summary os).rows ≡ worst_of interface os none)
      × AtMost (rank (summary os).state) os
      × ((n : ℕ) → AtMost n os → rank (summary os).state ≤ n)
unfolding summary lookup
summary_lem os =
    let rows = add_rows os [] in
    (
      add_rows-IsUnique os [] tt,
      λ interface. lookup-add_rows interface os [],
      ((add_rows-AtMost (rank (overall rows)) os []).0 (overall-AtMost rows)).0,
      λ n a. overall-le n rows ((add_rows-AtMost n os []).1 (a, tt)),
    )
