-- ===== src/Netagent/Agent/Owned.antt =====
-- Which machines a pass writes to, and which it remembers.
use kubevirt_webgui.Base.{
  ℕ, suc, ◌≡◌, ◌≢◌, refl, sym, ap, subst, ◌∙◌, inl, inr, Bool, true, false, ◌&&◌, ◌||◌, &&-eq-true,
  List, [], ◌∷◌, ◌++◌, Option, none, some, Str, codes, str_eq, str_eq_iff, any, any-append, All,
  arith, Bool-cases, if◌then◌else◌, Result, ok, err,
}
use kubevirt_webgui.Base.Json.{Json, field, as_str, as_list}
use kubevirt_webgui.Cluster.{ApiError}
use kubevirt_webgui.Netagent.Annotation.{Entry, parse}
use kubevirt_webgui.Netagent.Agent.{str_at}
use kubevirt_webgui.Netagent.Agent.Status.{Status}
use kubevirt_webgui.Netagent.Agent.Passes.{
  Patch, Agent, uid, annotation, vmi_path, patch_status, is_current, is_there, stable, counters,
  report, Visit, on_node, migrating_here, status_for, reconcile_spec, reconcile, visit_all, forget,
  tick,
}
use kubevirt_webgui.Netagent.Agent.Reports.{has_status}

-- Whether a machine of a list is on the node, or moves to it, and has the uid.
abbrev pub is_here : Str → Str → Json → Bool
is_here node key vmi = (on_node node vmi || migrating_here node vmi) && str_eq (uid vmi) key

or_regroup : (a b c : Bool) → ((a || b) || c) ≡ (a || (b || c))
or_regroup a b c = ground arith

module _ (node : Str) (Q : Patch → Type 0) where
  -- What may be sent to a machine.
  abbrev pub Grants : Json → Type 0
  Grants vmi =
      str_at (codes "status" ∷ codes "nodeName" ∷ []) (some vmi) ≡ node
      → (p : Str) (value : Option (Status × Str × ℕ)) → vmi_path vmi ≡ ok p
      → Q (record { path = p; value = value })

  abbrev IsFine : Agent → Type 0
  IsFine s = (s.node ≡ node) × All Q s.patches

  runs_on :
      (vmi : Json)
      → on_node node vmi ≡ true
      → str_at (codes "status" ∷ codes "nodeName" ∷ []) (some vmi) ≡ node
  unfolding on_node
  runs_on vmi h = (str_eq_iff (str_at (codes "status" ∷ codes "nodeName" ∷ []) (some vmi)) node).0 h

  patch_status-IsFine :
      (vmi : Json) (value : Option (Status × Str × ℕ)) (s : Agent)
      → on_node node vmi ≡ true
      → Grants vmi
      → IsFine s
      → IsFine (patch_status vmi value s)
  unfolding patch_status
  patch_status-IsFine vmi value s owns g f = go (vmi_path vmi) refl
    where
      go :
          (r : Result ApiError Str)
          → vmi_path vmi ≡ r
          → IsFine (elim r as (λ _. Agent) [
            | err _ ↦ s
            | ok p ↦ record s { patches = record { path = p; value = value } ∷ s.patches }
          ])
      go (err e) is_r = f
      go (ok p) is_r = (f.0, (g (runs_on vmi owns) p value is_r, f.1))

  report-IsFine :
      (now later : ℕ) (vmi : Json) (status : Status) (s : Agent)
      → on_node node vmi ≡ true
      → Grants vmi
      → IsFine s
      → IsFine (report now later vmi status s)
  unfolding report
  report-IsFine now later vmi status s owns g f =
      elim (Bool-cases
        (is_current now (has_status vmi) (stable status) (counters status) (s.written (uid vmi)))) [
          | inl current ↦ rw current f
          | inr due ↦ rw due (patch_status-IsFine vmi (some (status, s.node, later)) s owns g f)
        ]

  module _ (read : Str → Result Str (List Entry)) (parse_ip : Str → Option ℕ) (print_ip : ℕ → Str)
      (show : ℕ → Str) where
    reconcile_spec-IsFine :
        (vmi : Json) (owner : Bool) (visit : Visit) (spec : Option Str) (s : Agent)
        → (owner ≡ true → on_node node vmi ≡ true)
        → Grants vmi
        → IsFine s
        → IsFine (reconcile_spec read parse_ip print_ip show vmi owner visit spec s)
    unfolding reconcile_spec
    reconcile_spec-IsFine vmi owner visit none s owns g f =
        let there = is_there (annotation "kubevirt-webgui/offsubnet-nat-status" vmi) in
        let sent = λ (b : Bool). IsFine (if b then patch_status vmi none s else s) in
        elim (Bool-cases (there && owner)) [
          | inl both ↦
              subst sent (sym both)
                (patch_status-IsFine vmi none s (owns (&&-eq-true there owner both).1) g f)
          | inr neither ↦ subst sent (sym neither) f
        ]
    reconcile_spec-IsFine vmi false visit (some spec) s owns g f = f
    reconcile_spec-IsFine vmi true visit (some spec) s owns g f =
        let looked =
          status_for read parse_ip print_ip show s.node vmi visit.pods
            (parse parse_ip print_ip show read spec) s.macs in
        report-IsFine visit.now visit.later vmi looked.0 (record s { macs = looked.1 }) (owns refl)
          g f

    visit_all-IsFine :
        (visits : ℕ → Visit) (n : ℕ) (items : List Json) (live : List Str) (s : Agent)
        → All Grants items
        → IsFine s
        → IsFine (visit_all read parse_ip print_ip show visits n items live s).1
    unfolding visit_all reconcile
    visit_all-IsFine visits n [] live s g f = f
    visit_all-IsFine visits n (vmi ∷ rest) live s (g, gs) f =
        let here = on_node s.node vmi in
        let mine = here || migrating_here s.node vmi in
        let done = reconcile read parse_ip print_ip show vmi here (visits n) s in
        let step : IsFine done =
          reconcile_spec-IsFine vmi here (visits n)
            (as_str (annotation "kubevirt-webgui/offsubnet-nat" vmi)) s
            (λ e. subst (λ x. on_node x vmi ≡ true) f.0 e) g f in
        visit_all-IsFine visits (suc n) rest (if mine then live ++ uid vmi ∷ [] else live)
          (if mine then done else s) gs (go mine done step)
      where
        go : (b : Bool) (t : Agent) → IsFine t → IsFine (if b then t else s)
        go true t h = h
        go false t h = f

    live_after :
        (b : Bool) (key u : Str) (live : List Str)
        → any (λ v. str_eq v key) (if b then live ++ u ∷ [] else live)
          ≡ (any (λ v. str_eq v key) live || (b && str_eq u key))
    live_after true key u live = ground (arith, any-append (λ v. str_eq v key) live (u ∷ []))
    live_after false key u live = ground arith

    visit_all-live :
        (visits : ℕ → Visit) (n : ℕ) (items : List Json) (live : List Str) (s : Agent) (key : Str)
        → All Grants items
        → IsFine s
        → any (λ u. str_eq u key) (visit_all read parse_ip print_ip show visits n items live s).0
          ≡ (any (λ u. str_eq u key) live || any (is_here node key) items)
    unfolding visit_all reconcile
    visit_all-live visits n [] live s key g f = ground arith
    visit_all-live visits n (vmi ∷ rest) live s key (g, gs) f =
        let here = on_node s.node vmi in
        let mine = here || migrating_here s.node vmi in
        let done = reconcile read parse_ip print_ip show vmi here (visits n) s in
        let step : IsFine done =
          reconcile_spec-IsFine vmi here (visits n)
            (as_str (annotation "kubevirt-webgui/offsubnet-nat" vmi)) s
            (λ e. subst (λ x. on_node x vmi ≡ true) f.0 e) g f in
        visit_all-live visits (suc n) rest (if mine then live ++ uid vmi ∷ [] else live)
          (if mine then done else s) key gs (go mine done step)
        ∙ ap (λ b. b || any (is_here node key) rest) (live_after mine key (uid vmi) live)
        ∙ ap
            (λ x.
              (any (λ u. str_eq u key) live
                || ((on_node x vmi || migrating_here x vmi) && str_eq (uid vmi) key))
              || any (is_here node key) rest)
            f.0
        ∙ or_regroup (any (λ u. str_eq u key) live) (is_here node key vmi)
            (any (is_here node key) rest)
      where
        go : (b : Bool) (t : Agent) → IsFine t → IsFine (if b then t else s)
        go true t h = h
        go false t h = f

    -- A pass that could list the machines sends a status only to machines that run on the agent's own
    -- node, each by its own path: not to one that is only moving here. Afterwards it remembers nothing but
    -- of machines in the list that run here or are moving here, and what it remembers was there or is new.
    pub tick_lem :
        (list : Json) (visits : ℕ → Visit) (s : Agent)
        → s.node ≡ node
        → All Grants (as_list (field (codes "items") list))
        → All Q s.patches
        → All Q (tick read parse_ip print_ip show (ok list) visits s).patches
          × ((key : Str)
              → (tick read parse_ip print_ip show (ok list) visits s).written key ≢ none
              → any (is_here node key) (as_list (field (codes "items") list)) ≡ true)
    unfolding tick forget
    tick_lem list visits s is_node g q =
        let items = as_list (field (codes "items") list) in
        (
          (visit_all-IsFine visits 0 items [] s g (is_node, q)).1,
          λ key kept. elim (Bool-cases (any (is_here node key) items)) [
            | inl here ↦ here
            | inr nowhere ↦
                absurd
                  (kept (rw (visit_all-live visits 0 items [] s key g (is_node, q) ∙ nowhere) refl))
          ],
        )
