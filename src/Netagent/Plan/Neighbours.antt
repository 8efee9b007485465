-- ===== src/Netagent/Plan/Neighbours.antt =====
-- The neighbours: what is removed, what is replaced, and that the wanted ones are left.
use kubevirt_webgui.Base.{
  ◌≡◌, refl, ap, Bool, true, false, not, ◌&&◌, ◌||◌, List, [], ◌∷◌, map, arith, any, str_eq_iff,
  str_eq_refl, Bool-cases, inl, inr,
}
use kubevirt_webgui.Base.Sets.{triple_ord, has, has-difference, difference}
use kubevirt_webgui.Netagent.Plan.{
  Triple, Current, argv, del_neighbour, is_replaced, stale_neighbours,
}
use kubevirt_webgui.Netagent.Plan.Kernel.{Host, run_all, same_key}
use kubevirt_webgui.Netagent.Plan.Tables.{IsKeyed, has_of_any, any_of_has, wanted_not_replaced}

pub same_key_symm : (s t : Triple) → same_key s t ≡ same_key t s
same_key_symm (a, b, c) (d, e, f) =
    ground (arith, str_eq_iff a d, str_eq_iff d a, str_eq_iff c f, str_eq_iff f c)

pub same_key_refl : (t : Triple) → same_key t t ≡ true
same_key_refl (a, b, c) = ground (arith, str_eq_refl a, str_eq_refl c)

-- A neighbour that goes: none is wanted in its place.
abbrev pub is_stale : List Triple → Triple → Bool
is_stale want n = not (is_replaced want n)

is_replaced_lem :
    (want : List Triple) (n : Triple) → is_replaced want n ≡ any (λ u. same_key u n) want
unfolding is_replaced
is_replaced_lem want n = refl

module _ (h : Host) (want : List Triple) where
  pub run_stale :
      (ns : List Triple) (s : Current) (x : Triple)
      → has x (run_all h (map argv (stale_neighbours want ns)) s).neighbours
        ≡ (has x s.neighbours && not (any (λ n. same_key n x && is_stale want n) ns))
  unfolding stale_neighbours run_all argv
  run_stale [] s x = ground arith
  run_stale ((addr, mac, dev) ∷ ns) s x = elim (Bool-cases (is_replaced want (addr, mac, dev))) [
    | inl stays ↦ rw (stays, stale_neighbours) (ground (arith, run_stale ns s x))
    | inr goes ↦
        rw (goes, stale_neighbours)
          (ground (
            arith,
            run_stale ns (h.exec (argv (del_neighbour addr dev)) s) x,
            h.del_neighbour addr dev s x,
          ))
  ]

  pub run_stale_rest :
      (ns : List Triple) (s : Current)
      → ((run_all h (map argv (stale_neighbours want ns)) s).snat_rules ≡ s.snat_rules)
        × ((run_all h (map argv (stale_neighbours want ns)) s).routes ≡ s.routes)
  unfolding stale_neighbours run_all argv
  run_stale_rest [] s = (refl, refl)
  run_stale_rest ((addr, mac, dev) ∷ ns) s = elim (Bool-cases (is_replaced want (addr, mac, dev))) [
    | inl stays ↦ rw (stays, stale_neighbours) (run_stale_rest ns s)
    | inr goes ↦
        rw (goes, stale_neighbours)
          (ground (
            arith,
            run_stale_rest ns (h.exec (argv (del_neighbour addr dev)) s),
            h.del_neighbour_rest addr dev s,
          ))
  ]

-- The membership after the removals and the replacements is that of the wanted neighbours.
module _ (want cur : List Triple) (keyed : IsKeyed same_key want)
    (cur_keyed : IsKeyed same_key cur) where
  abbrev pub gone : Triple → Triple → Bool
  gone x n = same_key n x && is_stale want n

  wanted_not_gone : (x : Triple) → has x want ≡ true → any (gone x) (difference cur want) ≡ false
  wanted_not_gone x w = elim (Bool-cases (any (gone x) (difference cur want))) [
    | inr none_gone ↦ none_gone
    | inl some_gone ↦
        let (n, p, k) = has_of_any (gone x) (difference cur want) some_gone in
        let replaced =
          any_of_has (λ u. same_key u n) x want w (ground (arith, same_key_symm x n)) in
        ground (arith, is_replaced_lem want n)
  ]

  unwanted_goes :
      (x : Triple)
      → has x want ≡ false
      → has x cur ≡ true
      → (any (gone x) (difference cur want) || any (λ u. same_key u x) (difference want cur)) ≡ true
  unwanted_goes x w c = elim (Bool-cases (is_replaced want x)) [
    | inl replaced ↦
        let (u, p, k) =
          has_of_any (λ u. same_key u x) want (rw (← is_replaced_lem want x) replaced) in
        elim (Bool-cases (has u cur)) [
          | inl old ↦ ground (arith, ap (λ y. has y want) (cur_keyed u x old c k))
          | inr new ↦ ground (
            arith,
            any_of_has (λ y. same_key y x) u (difference want cur),
            has-difference u want cur,
          )
        ]
    | inr stale ↦ ground (
      arith,
      any_of_has (gone x) x (difference cur want),
      has-difference x cur want,
      same_key_refl x,
    )
  ]

  pub neighbours_lem :
      (x : Triple)
      → (has x (difference want cur)
          || (has x cur && not (any (gone x) (difference cur want)))
            && not (any (λ u. same_key u x) (difference want cur)))
        ≡ has x want
  neighbours_lem x = ground (
    arith,
    has-difference x want cur,
    wanted_not_gone x,
    wanted_not_replaced same_key want cur keyed x,
    unwanted_goes x,
  )
