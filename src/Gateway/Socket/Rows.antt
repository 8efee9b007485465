-- ===== src/Gateway/Socket/Rows.antt =====
-- Changes of the table of subscriptions, and who was told to stop.
use kubevirt_webgui.Base.{
  ℕ, ◌≡◌, refl, sym, ap, subst, ◌∙◌, inl, inr, ◌==◌, true, List, [], ◌∷◌, Option, none, some, Str,
  str_eq, str_eq_iff, str_eq_refl, any-append, map, arith, Bool-cases,
}
use kubevirt_webgui.Rpc.{lookup, put}
use kubevirt_webgui.Rpc.Lookups.{lookup_kept, lookup-put}
use kubevirt_webgui.Gateway.Socket.{
  Frame, Task, Socket, abort, without, take_off, insert_handle, cancel_all,
}
use kubevirt_webgui.Gateway.Socket.Runs.{is_told}
use kubevirt_webgui.Gateway.Socket.Tracked.{followed, is_live, IsOf, IsTracked}

told_row :
    (key : Str) (t : ℕ) (rows : List (Str × ℕ))
    → lookup key rows ≡ some t
    → is_told t (map (λ (row : Str × ℕ). row.1) rows) ≡ true
unfolding lookup
told_row key t [] e = cc
told_row key t ((k, u) ∷ rest) e = ground (arith, told_row key t rest)

module _ {V : Type 0} where
  -- Without the row of subscriptions that are over.
  pub take_off-IsTracked :
      (id : Str) (s : Socket V)
      → ((t : ℕ) (k : Task V)
          → s.tasks t ≡ some k
          → followed k.work ≡ some id
          → is_live k.phase ≡ true
          → ⊥)
      → IsTracked s
      → IsTracked (take_off id s)
  unfolding take_off without
  take_off-IsTracked id s over v = record {
    free = v.free;
    distinct = v.distinct;
    rows = λ key t r. v.rows key t (ground (arith, lookup_kept id key s.subscriptions));
    pending = λ key t r.
        let (n, o) = v.pending key t r in (ground (arith, lookup_kept id key s.subscriptions), o);
    tracked = λ t k key is_k f h. elim (v.tracked t k key is_k f h) [
      | inl told ↦ inl told
      | inr (inl row) ↦ elim (Bool-cases (str_eq id key)) [
        | inl same ↦ absurd (over t k is_k (f ∙ ap some (sym ((str_eq_iff id key).0 same))) h)
        | inr other ↦ inr (inl (ground (arith, lookup_kept id key s.subscriptions)))
      ]
      | inr (inr new) ↦ inr (inr new)
    ];
    closed = v.closed;
  }

  -- A row whose task is told to stop may go.
  pub drop-IsTracked :
      (id : Str) (frames : List (Frame V)) (s : Socket V)
      → IsTracked s
      → IsTracked (record s {
        subscriptions = without id s.subscriptions;
        aborted = abort (lookup id s.subscriptions) s.aborted;
        frames = frames;
      })
  unfolding without
  drop-IsTracked id frames s v = record {
    free = v.free;
    distinct = v.distinct;
    rows = λ key t r. v.rows key t (ground (arith, lookup_kept id key s.subscriptions));
    pending = λ key t r.
        let (n, o) = v.pending key t r in (ground (arith, lookup_kept id key s.subscriptions), o);
    tracked = λ t k key is_k f h. elim (v.tracked t k key is_k f h) [
      | inl told ↦ inl (told_still t told)
      | inr (inl row) ↦ elim (Bool-cases (str_eq id key)) [
        | inl same ↦
            let found : lookup id s.subscriptions ≡ some t =
              ap (λ x. lookup x s.subscriptions) ((str_eq_iff id key).0 same) ∙ row in
            inl (rw found (ground arith))
        | inr other ↦ inr (inl (ground (arith, lookup_kept id key s.subscriptions)))
      ]
      | inr (inr new) ↦ inr (inr new)
    ];
    closed = λ c.
        let (n, told) = v.closed c in (n, λ t k key is_k f h. told_still t (told t k key is_k f h));
  }
    where
      told_still :
          (t : ℕ)
          → is_told t s.aborted ≡ true
          → is_told t (abort (lookup id s.subscriptions) s.aborted) ≡ true
      told_still t h = ground (arith)

  pub insert_handle-IsTracked :
      (o : Option (Str × ℕ)) (s : Socket V)
      → s.inserting ≡ o
      → IsTracked s
      → IsTracked (insert_handle o s)
  unfolding insert_handle
  insert_handle-IsTracked none s e v = v
  insert_handle-IsTracked (some (id, t)) s e v =
      let (unused, of_t) = v.pending id t e in
      record {
        free = v.free;
        distinct = v.distinct;
        rows = λ key u r. elim (Bool-cases (str_eq id key)) [
          | inl same ↦
              subst (λ x. IsOf s x u) ((str_eq_iff id key).0 same)
                (subst (IsOf s id) (ground (arith, lookup-put id key t s.subscriptions)) of_t)
          | inr other ↦ v.rows key u (ground (arith, lookup-put id key t s.subscriptions))
        ];
        pending = λ key u r. cc;
        tracked = λ u k key is_k f h. elim (v.tracked u k key is_k f h) [
          | inl told ↦ inl (rw unused told)
          | inr (inl row) ↦ elim (Bool-cases (str_eq id key)) [
            | inl same ↦
                let found : lookup id s.subscriptions ≡ some u =
                  ap (λ x. lookup x s.subscriptions) ((str_eq_iff id key).0 same) ∙ row in
                absurd (ground (arith))
            | inr other ↦ inr (inl (ground (arith, lookup-put id key t s.subscriptions)))
          ]
          | inr (inr new) ↦
              let same : ◌≡◌ {A = Option (Str × ℕ)} (some (id, t)) (some (key, u)) = sym e ∙ new in
              let both : (id ≡ key) × (t ≡ u) = (cc, cc) in
              inr (
                inl (
                  subst (λ x. lookup x (put id t s.subscriptions) ≡ some u) both.0
                    (subst (λ x. lookup id (put id t s.subscriptions) ≡ some x) both.1
                      (rw (lookup-put id id t s.subscriptions, str_eq_refl id) refl))))
        ];
        closed = λ c. absurd (ground (arith, v.closed c));
      }

  pub cancel_all-IsTracked : (s : Socket V) → IsTracked s → IsTracked (cancel_all s)
  unfolding cancel_all lookup
  cancel_all-IsTracked s v = record {
    free = v.free;
    distinct = v.distinct;
    rows = λ key t r. cc;
    pending = λ key t r. (refl, (v.pending key t r).1);
    tracked = λ t k key is_k f h. elim (v.tracked t k key is_k f h) [
      | inl told ↦ inl (
          ground (
            arith,
            any-append (λ u. u == t) (map (λ (row : Str × ℕ). row.1) s.subscriptions) s.aborted,
          ))
      | inr (inl row) ↦ inl (
          ground (
            arith,
            told_row key t s.subscriptions,
            any-append (λ u. u == t) (map (λ (row : Str × ℕ). row.1) s.subscriptions) s.aborted,
          ))
      | inr (inr new) ↦ inr (inr new)
    ];
    closed = λ c.
        let (n, told) = v.closed c in
        (
          n,
          λ t k key is_k f h. ground (
            arith,
            told t k key is_k f h,
            any-append (λ u. u == t) (map (λ (row : Str × ℕ). row.1) s.subscriptions) s.aborted,
          ),
        );
  }
