-- ===== src/Base/Maps.antt =====
-- `HashMap` with texts as keys: what it has under each key.
use mathlib.Core.Path.{◌≡◌, refl, subst}
use mathlib.Core.Bool.{Bool, true, false}
use mathlib.Core.Logic.{inl, inr}
use mathlib.Core.Option.{Option, none, some}
use native.Mathlib.Omega.{arith}
use kubevirt_webgui.Base.Tests.{Bool-cases, if◌then◌else◌}
use kubevirt_webgui.Base.Text.{Str, str_eq, str_eq_refl}

abbrev pub Table {ℓ} : Type ℓ → Type ℓ
Table V = Str → Option V

module _ {ℓ} {V : Type ℓ} where
  abbrev pub no_rows : Table V
  no_rows key = none

  unfoldable pub insert : Str → V → Table V → Table V
  insert key v rows k = if str_eq key k then some v else rows k

  unfoldable pub remove : Str → Table V → Table V
  remove key rows k = if str_eq key k then none else rows k

  abbrev pub retain_if : (V → Bool) → Option V → Option V
  retain_if p none = none
  retain_if p (some v) = if p v then some v else none

  -- `retain` with a test of the values.
  unfoldable pub retain : (V → Bool) → Table V → Table V
  retain p rows k = retain_if p (rows k)

  pub insert-same : (key : Str) (v : V) (rows : Table V) → insert key v rows key ≡ some v
  unfolding insert
  insert-same key v rows = ground (arith, str_eq_refl key)

  pub insert-other :
      (key k : Str) (v : V) (rows : Table V) → str_eq key k ≡ false → insert key v rows k ≡ rows k
  unfolding insert
  insert-other key k v rows h = ground arith

  pub remove-same : (key : Str) (rows : Table V) → remove key rows key ≡ none
  unfolding remove
  remove-same key rows = ground (arith, str_eq_refl key)

  pub remove-other :
      (key k : Str) (rows : Table V) → str_eq key k ≡ false → remove key rows k ≡ rows k
  unfolding remove
  remove-other key k rows h = ground arith

  pub remove-none : (key k : Str) (rows : Table V) → rows k ≡ none → remove key rows k ≡ none
  unfolding remove
  remove-none key k rows h = ground arith

  pub retain-none :
      (p : V → Bool) (rows : Table V) (k : Str) → rows k ≡ none → retain p rows k ≡ none
  unfolding retain
  retain-none p rows k h = rw h refl

  pub retain-some :
      (p : V → Bool) (rows : Table V) (k : Str) (v : V)
      → rows k ≡ some v
      → p v ≡ true
      → retain p rows k ≡ some v
  unfolding retain
  retain-some p rows k v h q = rw (h, q) refl

  -- Every value of the table has a property.
  abbrev pub Every {κ} : (V → Type κ) → Table V → Type (ℓ ⊔ κ)
  Every P rows = (k : Str) (v : V) → rows k ≡ some v → P v

  pub insert-Every {κ} :
      (P : V → Type κ) (key : Str) (v : V) (rows : Table V)
      → P v
      → Every P rows
      → Every P (insert key v rows)
  unfolding insert
  insert-Every P key v rows p h k w e = elim (Bool-cases (str_eq key k)) [
    | inl here ↦ subst P (ground arith) p
    | inr there ↦ h k w (ground arith)
  ]

  pub remove-Every {κ} :
      (P : V → Type κ) (key : Str) (rows : Table V) → Every P rows → Every P (remove key rows)
  unfolding remove
  remove-Every P key rows h k w e = h k w (ground arith)

  pub retain-Every {κ} :
      (P : V → Type κ) (p : V → Bool) (rows : Table V) → Every P rows → Every P (retain p rows)
  unfolding retain
  retain-Every P p rows h k w e = h k w (ground arith)
