-- ===== src/Gateway/Socket/Spawns.antt =====
-- New tasks of a socket.
use kubevirt_webgui.Base.{
  ℕ, ◌≡◌, refl, sym, ap, subst, ◌∙◌, ◌⊎◌, inl, inr, ◌==◌, true, false, Option, none, some, Str,
  arith, Bool-cases, Option-cases,
}
use kubevirt_webgui.Rpc.{lookup}
use kubevirt_webgui.Gateway.Socket.{Work, calls, follows, running, Task, Socket, task, spawn}
use kubevirt_webgui.Gateway.Socket.Tracked.{followed, IsUnused, IsOf, IsTracked}

module _ {V : Type 0} where
  spawned_from :
      (work : Work V) (s : Socket V) (u : ℕ) (k : Task V)
      → (spawn work s).tasks u ≡ some k
      → ((u ≡ s.next) × (task work running false ≡ k)) ⊎ (s.tasks u ≡ some k)
  spawned_from work s u k m = elim (Bool-cases (u == s.next)) [
    | inl new ↦ inl (ground arith, ground arith)
    | inr old ↦ inr (ground arith)
  ]

  spawned_to :
      (work : Work V) (s : Socket V)
      → IsTracked s
      → (id : Str) (u : ℕ) → IsOf s id u
      → IsOf (spawn work s) id u
  spawned_to work s v id u (k, is_k, f) = (k, ground (arith, v.free u), f)

  -- A call is no subscription.
  pub spawn_call-IsTracked :
      (id : Option Str) (method : Str) (params : V) (s : Socket V)
      → IsTracked s
      → IsTracked (spawn (calls id method params) s)
  spawn_call-IsTracked id method params s v =
      let w : Work V = calls id method params in
      let old : (u : ℕ) (k : Task V) (key : Str)
          → (spawn w s).tasks u ≡ some k
          → followed k.work ≡ some key
          → s.tasks u ≡ some k =
        λ u k key m f. elim (spawned_from w s u k m) [
          | inl (_, is_k) ↦ absurd (ground (arith, ap (λ (x : Task V). followed x.work) is_k))
          | inr before ↦ before
        ] in
      record {
        free = λ u h. ground (arith, v.free u);
        distinct = λ t u j k key is_j is_k fj fk.
            v.distinct t u j k key (old t j key is_j fj) (old u k key is_k fk) fj fk;
        rows = λ key u r. spawned_to w s v key u (v.rows key u r);
        pending = λ key u r. let (n, o) = v.pending key u r in (n, spawned_to w s v key u o);
        tracked = λ u k key is_k f h. v.tracked u k key (old u k key is_k f) f h;
        closed = λ c.
            let (n, told) = v.closed c in
            (n, λ u k key is_k f h. told u k key (old u k key is_k f) f h);
      }

  unused_row :
      (s : Socket V) (id : Str) → IsUnused id s → IsTracked s → lookup id s.subscriptions ≡ none
  unused_row s id unused v = elim (Option-cases (lookup id s.subscriptions)) [
    | inl nothing ↦ nothing
    | inr (t, row) ↦ let (k, is_k, f) = v.rows id t row in absurd (unused t k is_k f)
  ]

  -- A subscription under an id of which the table knows nothing.
  pub spawn_subscription-IsTracked :
      (id topic : Str) (params : V) (s : Socket V)
      → s.is_open ≡ true
      → s.inserting ≡ none
      → IsUnused id s
      → IsTracked s
      → IsTracked (record (spawn (follows id topic params) s) { inserting = some (id, s.next) })
  spawn_subscription-IsTracked id topic params s is_open no_pending unused v =
      let w : Work V = follows id topic params in
      let named : (k : Task V) (key : Str)
          → task w running false ≡ k
          → followed k.work ≡ some key
          → id ≡ key =
        λ k key is_k f. ground (arith, ap (λ (x : Task V). followed x.work) is_k) in
      let new : IsOf (spawn w s) id s.next = (task w running false, ground arith, refl) in
      record {
        free = λ u h. ground (arith, v.free u);
        distinct = λ t u j k key is_j is_k fj fk. same_task w t u j k key named is_j is_k fj fk;
        rows = λ key u r. spawned_to w s v key u (v.rows key u r);
        pending = λ key u r.
            let both = both_eq key u r in
            (
              subst (λ x. lookup x s.subscriptions ≡ none) both.0 (unused_row s id unused v),
              subst (λ x. IsOf (spawn w s) key x) both.1
                  (subst (λ x. IsOf (spawn w s) x s.next) both.0 new),
            );
        tracked = λ u k key is_k f h. elim (spawned_from w s u k is_k) [
          | inl (is_u, is_new) ↦ inr (
              inr (
                ap (λ (x : Str). some (x, s.next)) (named k key is_new f)
                ∙ ap (λ (x : ℕ). some (key, x)) (sym is_u)))
          | inr before ↦ elim (v.tracked u k key before f h) [
            | inl told ↦ inl told
            | inr (inl row) ↦ inr (inl row)
            | inr (inr other) ↦ absurd (ground arith)
          ]
        ];
        closed = λ c. absurd (ground arith);
      }
    where
      both_eq :
          (key : Str) (u : ℕ)
          → ◌≡◌ {A = Option (Str × ℕ)} (some (id, s.next)) (some (key, u))
          → (id ≡ key) × (s.next ≡ u)
      both_eq key u r = (cc, cc)

      same_task :
          (w : Work V) (t u : ℕ) (j k : Task V) (key : Str)
          → ((k : Task V) (key : Str)
              → task w running false ≡ k
              → followed k.work ≡ some key
              → id ≡ key)
          → (spawn w s).tasks t ≡ some j
          → (spawn w s).tasks u ≡ some k
          → followed j.work ≡ some key
          → followed k.work ≡ some key
          → t ≡ u
      same_task w t u j k key named is_j is_k fj fk = elim (spawned_from w s t j is_j) [
        | inl (is_t, new_j) ↦ elim (spawned_from w s u k is_k) [
          | inl (is_u, new_k) ↦ is_t ∙ sym is_u
          | inr old_k ↦ absurd (unused u k old_k (fk ∙ ap some (sym (named j key new_j fj))))
        ]
        | inr old_j ↦ elim (spawned_from w s u k is_k) [
          | inl (is_u, new_k) ↦
              absurd (unused t j old_j (fj ∙ ap some (sym (named k key new_k fk))))
          | inr old_k ↦ v.distinct t u j k key old_j old_k fj fk
        ]
      ]
