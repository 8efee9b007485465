-- ===== src/Netagent/Plan/Settled.antt =====
-- A second pass over a pod that is as it should be.
use kubevirt_webgui.Base.{◌≡◌, refl, sym, false, List, [], ◌∷◌, Str, arith}
use kubevirt_webgui.Base.Sets.{
  Ord, str_ord, triple_ord, has, has-nil, has-cons, has-difference, difference, same_refl, count,
  has_of_count,
}
use kubevirt_webgui.Netagent.Plan.{
  Resolved, Current, drop_rules, stale_neighbours, plan, actions, commands, want_rules, want_routes,
  want_neighbours,
}
use kubevirt_webgui.Netagent.Plan.Kernel.{Host, run_all, one_if}
use kubevirt_webgui.Netagent.Plan.Rules.{drop_rules_lem}
use kubevirt_webgui.Netagent.Plan.Converges.{IsApplied, IsRegular, commands-IsApplied}

empty_of_has : {A : Type 0} ⦃o : Ord A⦄ (xs : List A) → ((x : A) → has x xs ≡ false) → xs ≡ []
empty_of_has [] h = refl
empty_of_has (x ∷ xs) h = ground (arith, h x, has-cons x x xs, same_refl x)

difference_empty :
    {A : Type 0} ⦃o : Ord A⦄ (xs ys : List A)
    → ((x : A) → has x xs ≡ has x ys)
    → difference xs ys ≡ []
difference_empty xs ys h =
    empty_of_has (difference xs ys) (λ x. ground (arith, has-difference x xs ys, h x))

drop_none :
    (want rs : List Str)
    → ((x : Str) → count x rs ≡ one_if (has x want))
    → (drop_rules want rs []).0 ≡ []
drop_none want rs h = empty_of_has (drop_rules want rs []).0 (λ x. ground (
  arith,
  h x,
  (drop_rules_lem want rs [] x).0,
  has-nil x,
  has_of_count x (drop_rules want rs []).0,
  has_of_count x rs,
))

keep_all :
    (want rs : List Str)
    → ((x : Str) → count x rs ≡ one_if (has x want))
    → difference want (drop_rules want rs []).1 ≡ []
keep_all want rs h =
    difference_empty want (drop_rules want rs []).1
      (λ x. ground (arith, h x, (drop_rules_lem want rs [] x).1, has-nil x, has_of_count x rs))

-- A pod that is as it should be is left alone.
applied_commands :
    (desired : List Resolved) (s : Current) → IsApplied desired s → commands desired s ≡ []
unfolding commands actions plan stale_neighbours
applied_commands desired s v =
    rw
      (
        drop_none (want_rules desired) s.snat_rules v.rules,
        keep_all (want_rules desired) s.snat_rules v.rules,
        difference_empty s.routes (want_routes desired) v.routes,
        difference_empty (want_routes desired) s.routes (λ x. sym (v.routes x)),
        difference_empty s.neighbours (want_neighbours desired) v.neighbours,
        difference_empty (want_neighbours desired) s.neighbours (λ x. sym (v.neighbours x)),
      )
      refl

-- With regular input, once the commands have run a second pass has nothing to do.
pub commands-twice :
    (h : Host) (desired : List Resolved) (cur : Current)
    → IsRegular desired cur
    → commands desired (run_all h (commands desired cur) cur) ≡ []
commands-twice h desired cur v =
    applied_commands desired (run_all h (commands desired cur) cur)
      (commands-IsApplied h desired cur v)
