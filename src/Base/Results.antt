-- ===== src/Base/Results.antt =====
-- `Result` with its bind, and messages kept as their format and its arguments.
use Prim.Native.Nat.{ℕ}
use Prim.Native.String.{String}
use mathlib.Core.Path.{◌≡◌, refl}
use mathlib.Core.List.{List}
use mathlib.Core.Option.{Option, none, some}

pub data Result {ℓ κ} (E : Type ℓ) (A : Type κ) : Type (ℓ ⊔ κ) where
  ok : A → Result E A
  err : E → Result E A

infixl 5 ◌>>=◌
abbrev pub ◌>>=◌ {ℓ κ μ} :
    {E : Type ℓ} {A : Type κ} {B : Type μ} → Result E A → (A → Result E B) → Result E B
err failure >>= _ = err failure
ok value >>= then_do = then_do value

-- `ok_or_else`.
abbrev pub or_fail {ℓ κ} : {E : Type ℓ} {A : Type κ} → Option A → E → Result E A
or_fail none e = err e
or_fail (some a) e = ok a

-- A chain that succeeds passed its first step.
module _ {ℓ κ μ} {E : Type ℓ} {A : Type κ} {B : Type μ} where
  pub >>=-eq-ok :
      (step : Result E A) (then_do : A → Result E B) {b : B}
      → (step >>= then_do) ≡ ok b
      → (a : A) × (step ≡ ok a) × (then_do a ≡ ok b)
  >>=-eq-ok (err failure) then_do e = cc
  >>=-eq-ok (ok value) then_do e = (value, refl, e)

-- What a message says: the format that the source writes, and its arguments in order.
pub record Message : Type 0 where
  pub format : String
  pub args : List (List ℕ)
