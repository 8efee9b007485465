-- ===== src/Proxmox/Allow/Masks.antt =====
-- What the masks keep of an address: its leading bits.
use Prim.Native.Nat.{bit_and, bit_and-bitwise, min, digits}
use native.Mathlib.Nat.{pow-suc, zero-add}
use kubevirt_webgui.Base.{
  ℕ, zero, suc, ◌+◌, ◌*◌, ◌-◌, ◌/◌, ◌^◌, ◌≤◌, ◌<◌, ◌≡◌, refl, ap, sym, ◌∙◌, ◌↔◌, Bool, true, ◌&&◌,
  ◌==◌, arith, Bool-cases, inl, inr, subst, &&-eq-true, ==_iff,
}
use kubevirt_webgui.Proxmox.Allow.{mask, is_same_net}

-- The number without its lowest bits.
unfoldable pub drop_bits : ℕ → ℕ → ℕ
drop_bits zero x = x
drop_bits (suc k) x = drop_bits k (x / 2)

-- `n` ones behind one another.
abbrev ones : ℕ → ℕ
ones zero = 0
ones (suc n) = ones n * 2 + 1

abbrev pub shift_up : ℕ → ℕ → ℕ
shift_up zero x = x
shift_up (suc k) x = shift_up k x * 2

half_odd : (m : ℕ) → (m * 2 + 1) / 2 ≡ m
half_odd m = omega arith

half_even : (m : ℕ) → m * 2 / 2 ≡ m
half_even m = omega arith

-- The digits that both have.
abbrev common : ℕ → ℕ → ℕ → ℕ
common = digits (λ y. 0) min

common-ones : (steps n x : ℕ) → x ≤ steps → drop_bits n x ≡ 0 → common steps x (ones n) ≡ x
unfolding drop_bits
common-ones zero n x le h = omega arith
common-ones (suc steps) n zero le h = refl
common-ones (suc steps) zero (suc x) le h = absurd (omega arith)
common-ones (suc steps) (suc n) (suc x) le h = omega (
  arith,
  ap (common steps (suc x / 2)) (half_odd (ones n)),
  common-ones steps n (suc x / 2) (omega arith) h,
)

drop_bits-zero : (k : ℕ) → drop_bits k 0 ≡ 0
unfolding drop_bits
drop_bits-zero zero = refl
drop_bits-zero (suc k) = drop_bits-zero k

shift_up-zero : (k : ℕ) → shift_up k 0 ≡ 0
shift_up-zero zero = refl
shift_up-zero (suc k) = omega (arith, shift_up-zero k)

no_bits : (k : ℕ) → 0 ≡ shift_up k (drop_bits k 0)
no_bits k = sym (ap (shift_up k) (drop_bits-zero k) ∙ shift_up-zero k)

zero_of : (x : ℕ) → x ≤ 0 → 0 ≡ x
zero_of x le = omega arith

common-shift_up :
    (steps n k x : ℕ)
    → x ≤ steps
    → drop_bits n (drop_bits k x) ≡ 0
    → common steps x (shift_up k (ones n)) ≡ shift_up k (drop_bits k x)
unfolding drop_bits
common-shift_up steps n zero x le h = common-ones steps n x le h
common-shift_up zero n (suc k) x le h =
    subst (λ y. 0 ≡ shift_up (suc k) (drop_bits (suc k) y)) (zero_of x le) (no_bits (suc k))
common-shift_up (suc steps) n (suc k) zero le h = no_bits (suc k)
common-shift_up (suc steps) n (suc k) (suc x) le h = omega (
  arith,
  ap (common steps (suc x / 2)) (half_even (shift_up k (ones n))),
  common-shift_up steps n k (suc x / 2) (omega arith) h,
)

-- Below a mask of ones, what is left is the number without its lowest bits.
bit_and-shift_up :
    (n k x : ℕ)
    → drop_bits n (drop_bits k x) ≡ 0
    → bit_and x (shift_up k (ones n)) ≡ shift_up k (drop_bits k x)
bit_and-shift_up n k x h =
    bit_and-bitwise x (shift_up k (ones n)) ∙ common-shift_up x n k x (omega arith) h

shift_up_injective : (k a b : ℕ) → shift_up k a ≡ shift_up k b → a ≡ b
shift_up_injective zero a b e = e
shift_up_injective (suc k) a b e = shift_up_injective k a b (omega arith)

drop_bits-lt : (n x : ℕ) → x < 2 ^ n → drop_bits n x ≡ 0
unfolding drop_bits
drop_bits-lt zero x h = omega arith
drop_bits-lt (suc n) x h = drop_bits-lt n (x / 2) (omega (arith, pow-suc 2 n))

drop_bits-twice : (m n k x : ℕ) → m ≡ k + n → x < 2 ^ m → drop_bits n (drop_bits k x) ≡ 0
unfolding drop_bits
drop_bits-twice m n zero x e h = drop_bits-lt n x (omega (arith, ap (◌^◌ 2) (e ∙ zero-add n)))
drop_bits-twice zero n (suc k) x e h = absurd (omega arith)
drop_bits-twice (suc m) n (suc k) x e h =
    drop_bits-twice m n k (x / 2) (omega arith) (omega (arith, pow-suc 2 m))

-- The masks of a width, one for each number of leading bits.
pub are_masks : ℕ → ℕ → Bool
unfolding mask
are_masks width zero = mask width 0 == shift_up (width - 0) (ones 0)
are_masks width (suc p) =
    mask width (suc p) == shift_up (width - suc p) (ones (suc p)) && are_masks width p

are_masks_sound :
    (width n p : ℕ)
    → are_masks width n ≡ true
    → p ≤ n
    → mask width p ≡ shift_up (width - p) (ones p)
unfolding are_masks
are_masks_sound width zero p h le =
    subst (λ q. mask width q ≡ shift_up (width - q) (ones q)) (omega arith) ((==_iff _ _).0 h)
are_masks_sound width (suc n) p h le =
    let (here, before) = &&-eq-true _ _ h in
    elim (Bool-cases (p == suc n)) [
      | inl last ↦
          subst (λ q. mask width q ≡ shift_up (width - q) (ones q))
            (sym ((==_iff p (suc n)).0 last)) ((==_iff _ _).0 here)
      | inr other ↦ are_masks_sound width n p before (ground arith)
    ]

pub masks_32 : are_masks 32 32 ≡ true
unfolding are_masks
masks_32 = refl

pub masks_128 : are_masks 128 128 ≡ true
unfolding are_masks
masks_128 = refl

-- What a mask keeps.
pub masked :
    (width p x : ℕ)
    → are_masks width width ≡ true
    → p ≤ width
    → x < 2 ^ width
    → bit_and x (mask width p) ≡ shift_up (width - p) (drop_bits (width - p) x)
masked width p x ok le h =
    ap (bit_and x) (are_masks_sound width width p ok le)
    ∙ bit_and-shift_up p (width - p) x (drop_bits-twice width p (width - p) x (omega arith) h)

pub is_same_net_iff :
    (width ip net prefix : ℕ)
    → are_masks width width ≡ true
    → ip < 2 ^ width
    → net < 2 ^ width
    → (is_same_net width ip net prefix ≡ true)
      ↔ (drop_bits (width - min prefix width) ip ≡ drop_bits (width - min prefix width) net)
unfolding is_same_net
is_same_net_iff width ip net prefix ok i n =
    let p = min prefix width in
    let a = masked width p ip ok (omega arith) i in
    let b = masked width p net ok (omega arith) n in
    (
      λ same. shift_up_injective (width - p) _ _ (sym a ∙ (==_iff _ _).0 same ∙ b),
      λ lead. (==_iff _ _).1 (a ∙ ap (shift_up (width - p)) lead ∙ sym b),
    )
