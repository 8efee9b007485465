-- ===== src/Netagent/Plan/Converges.antt =====
-- The commands bring the pod to what is wanted.
use kubevirt_webgui.Base.{
  ◌≡◌, refl, ap, sym, subst, ◌∙◌, Bool, not, ◌&&◌, ◌||◌, List, [], Str, arith, any, str_eq, All,
  All-keep,
}
use kubevirt_webgui.Base.Sets.{
  str_ord, triple_ord, has, has-nil, has-difference, same, difference, count, count-keep,
  count-of_list, has-of_list,
}
use kubevirt_webgui.Netagent.Plan.{
  Triple, Resolved, Current, del_rule, add_rule, del_route, replace_route, replace_neighbour, argv,
  drop_rules, plan, actions, commands, all_rules, want_rules, want_routes, want_neighbours,
}
use kubevirt_webgui.Netagent.Plan.Kernel.{Host, run_all, one_if, same_key}
use kubevirt_webgui.Netagent.Plan.Tables.{
  steps-keeps, steps-removes, steps-replaces, IsKeyed, IsKeyed-difference, wanted_not_replaced,
}
use kubevirt_webgui.Netagent.Plan.Rules.{
  IsRule, steps_del_count, steps_add_count, drop_rules_lem, drop_rules-All,
}
use kubevirt_webgui.Netagent.Plan.Neighbours.{run_stale, run_stale_rest, neighbours_lem, is_stale}
use kubevirt_webgui.Netagent.Plan.Phases.{
  run, out, added, after_rules, after_routes, after_stale, with_neighbours, with_routes, with_rules,
  run-plan,
}

-- One route for each destination.
abbrev pub same_destination : Triple → Triple → Bool
same_destination s t = str_eq s.0 t.0

module _ (h : Host) (rules : List Str) (routes neighbours : List Triple) (cur : Current) where
  keeps_rules :
      (with_routes h rules routes neighbours cur).snat_rules
      ≡ (after_rules h rules routes neighbours cur).snat_rules
  unfolding with_routes with_neighbours after_stale after_routes run argv
  keeps_rules =
      steps-keeps (λ a. h.exec (argv (replace_route a))) (λ s. s.snat_rules)
        (λ t s. (h.replace_route_rest t s).0) _ _
      ∙ (steps-keeps (λ a. h.exec (argv (replace_neighbour a))) (λ s. s.snat_rules)
            (λ t s. (h.replace_neighbour_rest t s).0) _ _
          ∙ ((run_stale_rest h neighbours _ _).0
              ∙ steps-keeps (λ a. h.exec (argv (del_route a))) (λ s. s.snat_rules)
                  (λ t s. (h.del_route_rest t s).0) _ _))

  rules_lem :
      All IsRule cur.snat_rules
      → All IsRule rules
      → ((x : Str) → count x rules ≡ one_if (has x rules))
      → (x : Str)
      → count x (with_rules h rules routes neighbours cur).snat_rules ≡ one_if (has x rules)
  unfolding with_rules after_rules out added difference
  rules_lem listed wanted once x = ground (
    arith,
    steps_add_count h (added h rules routes neighbours cur) (All-keep IsRule _ rules wanted)
        (with_routes h rules routes neighbours cur) x,
    keeps_rules,
    steps_del_count h (out h rules routes neighbours cur)
        (drop_rules-All IsRule rules cur.snat_rules [] listed) cur x,
    drop_rules_lem rules cur.snat_rules [] x,
    count-keep (λ r. not (has r (drop_rules rules cur.snat_rules []).1)) x rules,
    once x,
    has-nil x,
  )

  routes_before :
      (x : Triple)
      → has x (with_neighbours h rules routes neighbours cur).routes
        ≡ (has x cur.routes && not (has x (difference cur.routes routes)))
  unfolding with_neighbours after_stale after_routes after_rules run argv
  routes_before x =
      ap (has x) (
        steps-keeps (λ a. h.exec (argv (replace_neighbour a))) (λ s. s.routes)
          (λ t s. (h.replace_neighbour_rest t s).1) _ _
        ∙ (run_stale_rest h neighbours _ _).1)
      ∙ (steps-removes (λ a. h.exec (argv (del_route a))) (λ s. s.routes) h.del_route _ _ x
          ∙ ap (λ l. has x l && not (has x (difference cur.routes routes)))
              (steps-keeps (λ a. h.exec (argv (del_rule a))) (λ s. s.routes)
                (λ r s. (h.rule_rest _ s).0) _ _))

  added_rest :
      (r : Str) (s : Current)
      → ((h.exec (argv (add_rule r)) s).routes ≡ s.routes)
        × ((h.exec (argv (add_rule r)) s).neighbours ≡ s.neighbours)
  unfolding argv
  added_rest r s = h.rule_rest _ s

  replace_law :
      (t : Triple) (s : Current) (x : Triple)
      → has x (h.exec (argv (replace_route t)) s).routes
        ≡ (same t x || has x s.routes && not (same_destination t x))
  unfolding argv
  replace_law t s x = h.replace_route t s x

  neighbours_before :
      (x : Triple)
      → has x (with_neighbours h rules routes neighbours cur).neighbours
        ≡ has x (with_rules h rules routes neighbours cur).neighbours
  unfolding with_rules with_routes argv
  neighbours_before x = sym (
      ap (has x) (
        steps-keeps (λ a. h.exec (argv (add_rule a))) (λ s. s.neighbours)
          (λ r s. (added_rest r s).1) _ _
        ∙ steps-keeps (λ a. h.exec (argv (replace_route a))) (λ s. s.neighbours)
            (λ t s. (h.replace_route_rest t s).1) _ _))

  neighbours_at_start : (after_routes h rules routes neighbours cur).neighbours ≡ cur.neighbours
  unfolding after_routes after_rules argv
  neighbours_at_start =
      steps-keeps (λ a. h.exec (argv (del_route a))) (λ s. s.neighbours)
        (λ t s. (h.del_route_rest t s).1) _ _
      ∙ steps-keeps (λ a. h.exec (argv (del_rule a))) (λ s. s.neighbours)
          (λ r s. (h.rule_rest _ s).1) _ _

  routes_lem :
      IsKeyed same_destination routes
      → (x : Triple) → has x (with_rules h rules routes neighbours cur).routes ≡ has x routes
  unfolding with_rules with_routes
  routes_lem keyed x =
      ap (has x) (
        steps-keeps (λ a. h.exec (argv (add_rule a))) (λ s. s.routes) (λ r s. (added_rest r s).0) _
          _)
      ∙ (steps-replaces (λ a. h.exec (argv (replace_route a))) (λ s. s.routes) same_destination
            replace_law (difference routes cur.routes)
            (IsKeyed-difference same_destination routes cur.routes keyed) _ x
          ∙ ground (
            arith,
            routes_before x,
            has-difference x routes cur.routes,
            has-difference x cur.routes routes,
            wanted_not_replaced same_destination routes cur.routes keyed x,
          ))

  neighbours_final :
      IsKeyed same_key neighbours
      → IsKeyed same_key cur.neighbours
      → (x : Triple)
      → has x (with_rules h rules routes neighbours cur).neighbours ≡ has x neighbours
  unfolding with_neighbours after_stale run argv
  neighbours_final keyed cur_keyed x =
      sym (neighbours_before x)
      ∙ (steps-replaces (λ a. h.exec (argv (replace_neighbour a))) (λ s. s.neighbours) same_key
            h.replace_neighbour (difference neighbours cur.neighbours)
            (IsKeyed-difference same_key neighbours cur.neighbours keyed) _ x
          ∙ (ap
                (λ b.
                  has x (difference neighbours cur.neighbours)
                  || b && not (any (λ u. same_key u x) (difference neighbours cur.neighbours)))
                (run_stale h neighbours _ _ x
                  ∙ ap
                      (λ l.
                        has x l
                        && not (
                            any (λ n. same_key n x && is_stale neighbours n)
                              (difference cur.neighbours neighbours)))
                      neighbours_at_start)
              ∙ neighbours_lem neighbours cur.neighbours keyed cur_keyed x))

-- What one pass of the agent leads to.
pub record IsApplied (desired : List Resolved) (s : Current) : Type 0 where
  pub rules : (x : Str) → count x s.snat_rules ≡ one_if (has x (want_rules desired))
  pub routes : (x : Triple) → has x s.routes ≡ has x (want_routes desired)
  pub neighbours : (x : Triple) → has x s.neighbours ≡ has x (want_neighbours desired)

-- What the program needs of what is wanted and of what is there: rules that `iptables` lists as they
-- are written, one gateway for each client range, one MAC for each neighbour on a bridge.
pub record IsRegular (desired : List Resolved) (cur : Current) : Type 0 where
  pub listed : All IsRule cur.snat_rules
  pub wanted : All IsRule (want_rules desired)
  pub gateways : IsKeyed same_destination (want_routes desired)
  pub macs : IsKeyed same_key (want_neighbours desired)
  pub current_macs : IsKeyed same_key cur.neighbours

want_rules_once :
    (desired : List Resolved) (x : Str)
    → count x (want_rules desired) ≡ one_if (has x (want_rules desired))
unfolding want_rules
want_rules_once desired x =
    rw (count-of_list x (all_rules desired), has-of_list x (all_rules desired)) refl

run-commands :
    (h : Host) (desired : List Resolved) (cur : Current)
    → run_all h (commands desired cur) cur
      ≡ run h (plan (want_rules desired) (want_routes desired) (want_neighbours desired) cur) cur
unfolding commands actions run
run-commands h desired cur = refl

-- With regular input, after the commands have run every wanted rule stands in the chain exactly once
-- and no other of the agent's does, and its routes and neighbours are exactly the wanted ones,
-- whatever was there before.
pub commands-IsApplied :
    (h : Host) (desired : List Resolved) (cur : Current)
    → IsRegular desired cur
    → IsApplied desired (run_all h (commands desired cur) cur)
commands-IsApplied h desired cur v =
    subst (IsApplied desired)
      (sym (
        run-commands h desired cur
        ∙ run-plan h (want_rules desired) (want_routes desired) (want_neighbours desired) cur))
      (record {
        rules =
            rules_lem h (want_rules desired) (want_routes desired) (want_neighbours desired) cur
              v.listed v.wanted (want_rules_once desired);
        routes =
            routes_lem h (want_rules desired) (want_routes desired) (want_neighbours desired) cur
              v.gateways;
        neighbours =
            neighbours_final h (want_rules desired) (want_routes desired) (want_neighbours desired)
              cur v.macs v.current_macs;
      })
