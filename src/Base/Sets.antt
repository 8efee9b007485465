-- ===== src/Base/Sets.antt =====
-- `BTreeSet`: lists in the order of a comparison, without duplicates.
use Prim.Native.Nat.{ℕ, ◌+◌, compare, Ordering}
use mathlib.Core.Path.{◌≡◌, refl, ap}
use mathlib.Core.Logic.{◌↔◌}
use mathlib.Core.Bool.{Bool, true, false, not, ◌&&◌, ◌||◌}
use mathlib.Core.List.{List, [], ◌∷◌, ◌++◌}
use native.Mathlib.Omega.{arith}
use kubevirt_webgui.Base.Tests.{◌==◌, if◌then◌else◌}
use kubevirt_webgui.Base.Lists.{any, keep, any-append}
use kubevirt_webgui.Base.Text.{Str}

-- `Ord::cmp` as the sets use it: equal only for equal values.
pub record Ord {ℓ} (A : Type ℓ) : Type ℓ where
  pub cmp : A → A → Ordering
  pub cmp_iff : (a b : A) → (cmp a b ≡ Ordering.eq) ↔ (a ≡ b)

-- The comparison of texts: of their bytes, which agrees with that of their code points.
unfoldable pub str_cmp : Str → Str → Ordering
str_cmp [] [] = Ordering.eq
str_cmp [] (b ∷ t) = Ordering.lt
str_cmp (a ∷ s) [] = Ordering.gt
str_cmp (a ∷ s) (b ∷ t) =
    let rest = str_cmp s t in
    elim (compare a b) [
      | Ordering.lt ↦ Ordering.lt
      | Ordering.eq ↦ rest
      | Ordering.gt ↦ Ordering.gt
    ]

pub str_cmp_iff : (s t : Str) → (str_cmp s t ≡ Ordering.eq) ↔ (s ≡ t)
unfolding str_cmp
str_cmp_iff [] [] = (λ _. refl, λ _. refl)
str_cmp_iff [] (b ∷ t) = ground arith
str_cmp_iff (a ∷ s) [] = ground arith
str_cmp_iff (a ∷ s) (b ∷ t) = ground (arith, str_cmp_iff s t)

instance abbrev pub str_ord : Ord Str
str_ord = record { cmp = str_cmp; cmp_iff = str_cmp_iff }

-- Triples of texts, field by field.
unfoldable pub triple_cmp : Str × Str × Str → Str × Str × Str → Ordering
triple_cmp (a, b, c) (d, e, f) = elim (str_cmp a d) [
  | Ordering.lt ↦ Ordering.lt
  | Ordering.gt ↦ Ordering.gt
  | Ordering.eq ↦ elim (str_cmp b e) [
    | Ordering.lt ↦ Ordering.lt
    | Ordering.gt ↦ Ordering.gt
    | Ordering.eq ↦ str_cmp c f
  ]
]

pub triple_cmp_iff : (s t : Str × Str × Str) → (triple_cmp s t ≡ Ordering.eq) ↔ (s ≡ t)
unfolding triple_cmp
triple_cmp_iff (a, b, c) (d, e, f) =
    ground (arith, str_cmp_iff a d, str_cmp_iff b e, str_cmp_iff c f)

instance abbrev pub triple_ord : Ord (Str × Str × Str)
triple_ord = record { cmp = triple_cmp; cmp_iff = triple_cmp_iff }

abbrev is_eq : Ordering → Bool
is_eq Ordering.eq = true
is_eq _ = false

module _ {ℓ} {A : Type ℓ} ⦃o : Ord A⦄ where
  pub same : A → A → Bool
  same a b = is_eq (o.cmp a b)

  pub same_iff : (a b : A) → (same a b ≡ true) ↔ (a ≡ b)
  unfolding same
  same_iff a b = ground (arith, o.cmp_iff a b)

  place : A → List A → List A
  place a [] = a ∷ []
  place a (x ∷ xs) =
      let rest = place a xs in
      elim (o.cmp a x) [
        | Ordering.lt ↦ a ∷ x ∷ xs
        | Ordering.eq ↦ a ∷ x ∷ xs
        | Ordering.gt ↦ x ∷ rest
      ]

  unfoldable pub has : A → List A → Bool
  unfolding same
  has a = any (λ x. same x a)

  unfoldable pub insert : A → List A → List A
  unfolding place has
  insert a xs = if has a xs then xs else place a xs

  -- `collect` into a set.
  unfoldable pub of_list : List A → List A
  unfolding insert
  of_list [] = []
  of_list (x ∷ xs) = insert x (of_list xs)

  -- `a.difference(&b)`.
  unfoldable pub difference : List A → List A → List A
  unfolding has
  difference xs ys = keep (λ x. not (has x ys)) xs

  has-place : (a b : A) (xs : List A) → has b (place a xs) ≡ (same a b || has b xs)
  unfolding has place
  has-place a b [] = refl
  has-place a b (x ∷ xs) = ground (arith, has-place a b xs)

  has_of_same : (a b : A) (xs : List A) → same a b ≡ true → has a xs ≡ has b xs
  has_of_same a b xs h = ap (λ c. has c xs) ((same_iff a b).0 h)

  pub has-insert : (a b : A) (xs : List A) → has b (insert a xs) ≡ (same a b || has b xs)
  unfolding insert
  has-insert a b xs = ground (arith, has-place a b xs, has_of_same a b xs)

  pub has-cons : (b x : A) (xs : List A) → has b (x ∷ xs) ≡ (same x b || has b xs)
  unfolding has
  has-cons b x xs = refl

  pub has-nil : (b : A) → has b [] ≡ false
  unfolding has
  has-nil b = refl

  pub has-of_list : (b : A) (xs : List A) → has b (of_list xs) ≡ has b xs
  unfolding of_list
  has-of_list b [] = refl
  has-of_list b (x ∷ xs) = rw (has-insert x b (of_list xs), has-of_list b xs, has-cons b x xs)

  pub has-append : (b : A) (xs ys : List A) → has b (xs ++ ys) ≡ (has b xs || has b ys)
  unfolding has
  has-append b xs ys = any-append (λ x. same x b) xs ys

  pub has-difference :
      (b : A) (xs ys : List A) → has b (difference xs ys) ≡ (has b xs && not (has b ys))
  unfolding difference
  has-difference b [] ys = refl
  has-difference b (x ∷ xs) ys = ground (arith, has-difference b xs ys, same_iff x b)

  pub same_refl : (a : A) → same a a ≡ true
  same_refl a = (same_iff a a).1 refl

  -- Sets by membership.
  abbrev pub SameMembers : List A → List A → Type ℓ
  SameMembers xs ys = (a : A) → has a xs ≡ has a ys

  -- How often a value stands in a list.
  unfoldable pub count : A → List A → ℕ
  unfolding same
  count a [] = 0
  count a (x ∷ xs) = (if same x a then 1 else 0) + count a xs

  count-place :
      (a b : A) (xs : List A) → count b (place a xs) ≡ (if same a b then 1 else 0) + count b xs
  unfolding count place
  count-place a b [] = refl
  count-place a b (x ∷ xs) = ground (arith, count-place a b xs)

  count-insert :
      (a b : A) (xs : List A)
      → count b (insert a xs)
        ≡ (if has a xs then count b xs else (if same a b then 1 else 0) + count b xs)
  unfolding insert
  count-insert a b xs = ground (arith, count-place a b xs)

  -- A set holds each of its members once.
  pub count-of_list : (b : A) (xs : List A) → count b (of_list xs) ≡ (if has b xs then 1 else 0)
  unfolding of_list count
  count-of_list b [] = refl
  count-of_list b (x ∷ xs) = ground (
    arith,
    count-insert x b (of_list xs),
    count-of_list b xs,
    has-of_list x xs,
    has_of_same x b xs,
    has-cons b x xs,
  )

  pub count-keep :
      (p : A → Bool) (b : A) (xs : List A) → count b (keep p xs) ≡ (if p b then count b xs else 0)
  unfolding count
  count-keep p b [] = ground arith
  count-keep p b (x ∷ xs) = ground (arith, count-keep p b xs, ap p, same_iff x b)

  pub has_of_count : (b : A) (xs : List A) → has b xs ≡ (if count b xs == 0 then false else true)
  unfolding has count
  has_of_count b [] = refl
  has_of_count b (x ∷ xs) = ground (arith, has_of_count b xs)
