-- ===== src/Netagent/Plan/Tables.antt =====
-- Commands of one kind, one for each item of a list: what they do to what they change, and to the rest.
use kubevirt_webgui.Base.{
  ◌≡◌, refl, ap, sym, subst, ◌∙◌, Bool, true, false, not, ◌&&◌, ◌||◌, List, [], ◌∷◌, ◌++◌, Str,
  arith, any, Bool-cases, inl, inr,
}
use kubevirt_webgui.Base.Sets.{
  str_ord, triple_ord, has, same, same_iff, same_refl, has-nil, has-cons, difference,
  has-difference,
}
use kubevirt_webgui.Netagent.Plan.{Triple, Current}
use kubevirt_webgui.Netagent.Plan.Kernel.{Host, run_all}

module _ {A : Type 0} (f : A → Current → Current) where
  unfoldable pub steps : List A → Current → Current
  steps [] s = s
  steps (a ∷ more) s = steps more (f a s)

  pub steps-keeps :
      {B : Type 0} (g : Current → B)
      → ((a : A) (s : Current) → g (f a s) ≡ g s)
      → (xs : List A) (s : Current) → g (steps xs s) ≡ g s
  unfolding steps
  steps-keeps g k [] s = refl
  steps-keeps g k (a ∷ more) s = steps-keeps g k more (f a s) ∙ k a s

pub run_all-append :
    (h : Host) (xs ys : List (List Str)) (s : Current)
    → run_all h (xs ++ ys) s ≡ run_all h ys (run_all h xs s)
unfolding run_all
run_all-append h [] ys s = refl
run_all-append h (x ∷ xs) ys s = run_all-append h xs ys (h.exec x s)

-- Items with one key are one item.
abbrev pub IsKeyed : (Triple → Triple → Bool) → List Triple → Type 0
IsKeyed key ts = (t u : Triple) → has t ts ≡ true → has u ts ≡ true → key t u ≡ true → t ≡ u

IsKeyed-tail :
    (key : Triple → Triple → Bool) (t : Triple) (ts : List Triple)
    → IsKeyed key (t ∷ ts)
    → IsKeyed key ts
IsKeyed-tail key t ts keyed u v p q k =
    keyed u v (ground (arith, has-cons u t ts)) (ground (arith, has-cons v t ts)) k

pub has_of_any :
    (test : Triple → Bool) (ts : List Triple)
    → any test ts ≡ true
    → (u : Triple) × (has u ts ≡ true) × (test u ≡ true)
has_of_any test [] h = cc
has_of_any test (t ∷ ts) h = elim (Bool-cases (test t)) [
  | inl hit ↦ (t, ground (arith, has-cons t t ts, same_refl t), hit)
  | inr miss ↦
      let (u, p, k) = has_of_any test ts (ground arith) in (u, ground (arith, has-cons u t ts), k)
]

pub any_of_has :
    (test : Triple → Bool) (u : Triple) (ts : List Triple)
    → has u ts ≡ true
    → test u ≡ true
    → any test ts ≡ true
any_of_has test u [] h k = ground (arith, has-nil u)
any_of_has test u (t ∷ ts) h k =
    ground (arith, has-cons u t ts, any_of_has test u ts, same_iff t u, ap test)

keyed_clash :
    (key : Triple → Triple → Bool) (t x : Triple) (ts : List Triple)
    → IsKeyed key (t ∷ ts)
    → same t x ≡ true
    → any (λ u. key u x) ts ≡ true
    → has x ts ≡ true
keyed_clash key t x ts keyed e h =
    let (u, p, k) = has_of_any (λ u. key u x) ts h in
    let t_x = (same_iff t x).0 e in
    let u_t =
      keyed u t (ground (arith, has-cons u t ts)) (ground (arith, has-cons t t ts, same_refl t))
        (subst (λ y. key u y ≡ true) (sym t_x) k) in
    subst (λ y. has y ts ≡ true) (u_t ∙ t_x) p

-- Each removes its item.
module _ (f : Triple → Current → Current) (get : Current → List Triple) where
  pub steps-removes :
      ((t : Triple) (s : Current) (x : Triple)
        → has x (get (f t s)) ≡ (has x (get s) && not (same t x)))
      → (ts : List Triple) (s : Current) (x : Triple)
      → has x (get (steps f ts s)) ≡ (has x (get s) && not (has x ts))
  unfolding steps
  steps-removes law [] s x = ground (arith, has-nil x)
  steps-removes law (t ∷ ts) s x =
      ground (arith, steps-removes law ts (f t s) x, law t s x, has-cons x t ts)

  -- Each puts its item in place of those with its key.
  pub steps-replaces :
      (key : Triple → Triple → Bool)
      → ((t : Triple) (s : Current) (x : Triple)
          → has x (get (f t s)) ≡ (same t x || has x (get s) && not (key t x)))
      → (ts : List Triple) → IsKeyed key ts
      → (s : Current) (x : Triple)
      → has x (get (steps f ts s)) ≡ (has x ts || has x (get s) && not (any (λ t. key t x) ts))
  unfolding steps
  steps-replaces key law [] keyed s x = ground (arith, has-nil x)
  steps-replaces key law (t ∷ ts) keyed s x = ground (
    arith,
    steps-replaces key law ts (IsKeyed-tail key t ts keyed) (f t s) x,
    law t s x,
    has-cons x t ts,
    keyed_clash key t x ts keyed,
  )

pub IsKeyed-difference :
    (key : Triple → Triple → Bool) (want cur : List Triple)
    → IsKeyed key want
    → IsKeyed key (difference want cur)
IsKeyed-difference key want cur keyed t u p q k =
    keyed t u (ground (arith, has-difference t want cur))
      (ground (arith, has-difference u want cur)) k

-- What is there and wanted has the key of nothing that is put in place.
pub wanted_not_replaced :
    (key : Triple → Triple → Bool) (want cur : List Triple)
    → IsKeyed key want
    → (x : Triple) → has x want ≡ true
    → has x cur ≡ true
    → any (λ u. key u x) (difference want cur) ≡ false
wanted_not_replaced key want cur keyed x w c =
    elim (Bool-cases (any (λ u. key u x) (difference want cur))) [
      | inr none_put ↦ none_put
      | inl some_put ↦
          let (u, p, k) = has_of_any (λ u. key u x) (difference want cur) some_put in
          let same_u = keyed u x (ground (arith, has-difference u want cur)) w k in
          ground (arith, has-difference u want cur, ap (λ y. has y cur) same_u)
    ]
