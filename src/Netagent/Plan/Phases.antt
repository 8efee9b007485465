-- ===== src/Netagent/Plan/Phases.antt =====
-- The states of the pod between the six kinds of commands of a plan.
use kubevirt_webgui.Base.{◌≡◌, refl, ap, List, [], ◌∷◌, ◌++◌, map, Str}
use kubevirt_webgui.Base.Sets.{str_ord, triple_ord, difference}
use kubevirt_webgui.Netagent.Plan.{
  Triple, Current, Action, del_rule, add_rule, del_route, replace_route, replace_neighbour, argv,
  drop_rules, stale_neighbours, plan,
}
use kubevirt_webgui.Netagent.Plan.Kernel.{Host, run_all}
use kubevirt_webgui.Netagent.Plan.Tables.{steps, run_all-append}

map-append : (xs ys : List Action) → map argv (xs ++ ys) ≡ map argv xs ++ map argv ys
map-append [] ys = refl
map-append (x ∷ xs) ys = ap (◌∷◌ (argv x)) (map-append xs ys)

module _ (h : Host) where
  unfoldable pub run : List Action → Current → Current
  run acts s = run_all h (map argv acts) s

  run-append : (xs ys : List Action) (s : Current) → run (xs ++ ys) s ≡ run ys (run xs s)
  unfolding run
  run-append xs ys s = rw (map-append xs ys) (run_all-append h (map argv xs) (map argv ys) s)

  run-map :
      {A : Type 0} (make : A → Action) (xs : List A) (s : Current)
      → run (map make xs) s ≡ steps (λ a. h.exec (argv (make a))) xs s
  unfolding run run_all steps
  run-map make [] s = refl
  run-map make (x ∷ xs) s = run-map make xs (h.exec (argv (make x)) s)

  -- The states between the six kinds of commands.
  module _ (rules : List Str) (routes neighbours : List Triple) (cur : Current) where
    unfoldable pub out : List Str
    out = (drop_rules rules cur.snat_rules []).0

    unfoldable pub added : List Str
    added = difference rules (drop_rules rules cur.snat_rules []).1

    unfoldable pub after_rules : Current
    after_rules = steps (λ a. h.exec (argv (del_rule a))) out cur

    unfoldable pub after_routes : Current
    after_routes =
        steps (λ a. h.exec (argv (del_route a))) (difference cur.routes routes) after_rules

    unfoldable pub after_stale : Current
    after_stale =
        run (stale_neighbours neighbours (difference cur.neighbours neighbours)) after_routes

    unfoldable pub with_neighbours : Current
    with_neighbours =
        steps (λ a. h.exec (argv (replace_neighbour a))) (difference neighbours cur.neighbours)
          after_stale

    unfoldable pub with_routes : Current
    with_routes =
        steps (λ a. h.exec (argv (replace_route a))) (difference routes cur.routes) with_neighbours

    unfoldable pub with_rules : Current
    with_rules = steps (λ a. h.exec (argv (add_rule a))) added with_routes

    pub run-plan : run (plan rules routes neighbours cur) cur ≡ with_rules
    unfolding plan out added after_rules after_routes after_stale with_neighbours with_routes
        with_rules
    run-plan = simp (run-append, run-map)
