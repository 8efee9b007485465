-- ===== src/Base/Numbers.antt =====
-- `str::parse` into unsigned numbers: digits, which a plus sign may precede, below a bound.
use Prim.Native.Nat.{ℕ, ◌+◌, ◌-◌, ◌*◌, ◌<◌}
use mathlib.Core.Path.{◌≡◌}
use mathlib.Core.Bool.{◌&&◌}
use mathlib.Core.Option.{Option, none, some}
use mathlib.Core.List.{[], ◌∷◌}
use native.Mathlib.Omega.{arith}
use kubevirt_webgui.Base.Tests.{◌==◌, ltb, if◌then◌else◌}
use kubevirt_webgui.Base.Text.{Str, is_digit}

-- The digits after those that gave `acc`.
unfoldable pub digits_from : ℕ → ℕ → Str → Option ℕ
digits_from bound acc [] = some acc
digits_from bound acc (c ∷ s) =
    let rest = digits_from bound (acc * 10 + (c - b'0')) s in
    if is_digit c && ltb (acc * 10 + (c - b'0')) bound then rest else none

abbrev pub drop_plus : Str → Str
drop_plus [] = []
drop_plus (c ∷ s) = if c == b'+' then s else c ∷ s

abbrev pub digits_of : ℕ → Str → Option ℕ
unfolding digits_from
digits_of bound [] = none
digits_of bound (c ∷ s) = digits_from bound 0 (c ∷ s)

-- `text.parse()` for a type of the numbers below the bound.
unfoldable pub parse_below : ℕ → Str → Option ℕ
unfolding digits_of
parse_below bound text = digits_of bound (drop_plus text)

digits_from-lt :
    (bound acc : ℕ) (s : Str) (n : ℕ) → acc < bound → digits_from bound acc s ≡ some n → n < bound
unfolding digits_from
digits_from-lt bound acc [] n h e = ground arith
digits_from-lt bound acc (c ∷ s) n h e =
    ground (arith, digits_from-lt bound (acc * 10 + (c - b'0')) s n)

-- What is parsed is below the bound.
pub parse_below-lt :
    (bound : ℕ) (text : Str) (n : ℕ) → 0 < bound → parse_below bound text ≡ some n → n < bound
unfolding parse_below
parse_below-lt bound text n h = go (drop_plus text)
  where
    go : (s : Str) → digits_of bound s ≡ some n → n < bound
    go [] e = cc
    go (c ∷ s) e = digits_from-lt bound 0 (c ∷ s) n h e
