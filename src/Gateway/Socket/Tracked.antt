-- ===== src/Gateway/Socket/Tracked.antt =====
-- A subscription that runs is in the table, where an end of the socket finds it.
use kubevirt_webgui.Base.{
  ℕ, ◌≤◌, ◌≡◌, refl, sym, ap, subst, ◌∙◌, ◌⊎◌, inl, inr, ◌==◌, Bool, true, false, Option, none,
  some, Str, arith, Bool-cases,
}
use kubevirt_webgui.Rpc.{lookup}
use kubevirt_webgui.Gateway.Socket.{
  Work, calls, follows, Phase, running, returned, Task, Socket, connected, task, move,
}
use kubevirt_webgui.Gateway.Socket.Runs.{is_told}

module _ {V : Type 0} where
  abbrev pub followed : Work V → Option Str
  followed (calls id method params) = none
  followed (follows id topic params) = some id

  -- Not yet back from the registry, or back and still to leave the table.
  abbrev pub is_live : Phase V → Bool
  is_live running = true
  is_live (returned r) = true
  is_live _ = false

  abbrev pub IsUnused : Str → Socket V → Type 0
  IsUnused id s = (t : ℕ) (k : Task V) → s.tasks t ≡ some k → followed k.work ≡ some id → ⊥

  -- The task exists and is a subscription under the id.
  abbrev pub IsOf : Socket V → Str → ℕ → Type 0
  IsOf s id t = (k : Task V) × (s.tasks t ≡ some k) × (followed k.work ≡ some id)

  abbrev pub AllTold : Socket V → Type 0
  AllTold s =
      (t : ℕ) (k : Task V) (id : Str)
      → s.tasks t ≡ some k
      → followed k.work ≡ some id
      → is_live k.phase ≡ true
      → is_told t s.aborted ≡ true

  abbrev pub Tracks : Socket V → Type 0
  Tracks s =
      (t : ℕ) (k : Task V) (id : Str)
      → s.tasks t ≡ some k
      → followed k.work ≡ some id
      → is_live k.phase ≡ true
      → (is_told t s.aborted ≡ true)
        ⊎ (lookup id s.subscriptions ≡ some t)
        ⊎ (s.inserting ≡ some (id, t))

  pub record IsTracked (s : Socket V) : Type 0 where
    pub free : (t : ℕ) → s.next ≤ t → s.tasks t ≡ none
    pub distinct :
        (t u : ℕ) (j k : Task V) (id : Str)
        → s.tasks t ≡ some j
        → s.tasks u ≡ some k
        → followed j.work ≡ some id
        → followed k.work ≡ some id
        → t ≡ u
    pub rows : (id : Str) (t : ℕ) → lookup id s.subscriptions ≡ some t → IsOf s id t
    pub pending :
        (id : Str) (t : ℕ)
        → s.inserting ≡ some (id, t)
        → (lookup id s.subscriptions ≡ none) × IsOf s id t
    pub tracked : Tracks s
    pub closed : s.is_open ≡ false → (s.inserting ≡ none) × AllTold s

  pub connected-IsTracked : IsTracked connected
  unfolding lookup
  connected-IsTracked = record {
    free = λ t h. refl;
    distinct = λ t u j k id p. cc;
    rows = λ id t p. cc;
    pending = λ id t p. cc;
    tracked = λ t k id p. cc;
    closed = λ p. cc;
  }

  -- A task that moves stays what it is, and does not come alive.
  moved_from :
      (s : Socket V) (t : ℕ) (work : Work V) (p q : Phase V) (a b : Bool)
      → s.tasks t ≡ some (task work p a)
      → (is_live q ≡ true → is_live p ≡ true)
      → (u : ℕ) (k : Task V) → (move t (task work q b) s).tasks u ≡ some k
      → (j : Task V) × (s.tasks u ≡ some j)
        × (followed j.work ≡ followed k.work)
        × (is_live k.phase ≡ true → is_live j.phase ≡ true)
  moved_from s t work p q a b e l u k m = elim (Bool-cases (u == t)) [
    | inl same ↦
        let is_k : task work q b ≡ k = ground arith in
        (
          task work p a,
          ground arith,
          ap (λ (x : Task V). followed x.work) is_k,
          subst (λ (x : Task V). is_live x.phase ≡ true → is_live p ≡ true) is_k l,
        )
    | inr other ↦ (k, ground arith, refl, λ h. h)
  ]

  moved_to :
      (s : Socket V) (t : ℕ) (work : Work V) (p q : Phase V) (a b : Bool)
      → s.tasks t ≡ some (task work p a)
      → (id : Str) (u : ℕ) → IsOf s id u
      → IsOf (move t (task work q b) s) id u
  moved_to s t work p q a b e id u (k, is_k, f) = elim (Bool-cases (u == t)) [
    | inl same ↦
        let is_w : task work p a ≡ k = ground arith in
        (
          task work q b,
          ground arith,
          subst (λ (x : Task V). followed x.work ≡ some id) (sym is_w) f,
        )
    | inr other ↦ (k, ground arith, f)
  ]

  pub move-IsTracked :
      (s : Socket V) (t : ℕ) (work : Work V) (p q : Phase V) (a b : Bool)
      → s.tasks t ≡ some (task work p a)
      → (is_live q ≡ true → is_live p ≡ true)
      → IsTracked s
      → IsTracked (move t (task work q b) s)
  move-IsTracked s t work p q a b e l v =
      let from = moved_from s t work p q a b e l in
      let to = moved_to s t work p q a b e in
      record {
        free = λ u h. ground (arith, v.free u, v.free t);
        distinct = λ u w j k id is_j is_k fj fk.
            let (j', is_j', same_j, _) = from u j is_j in
            let (k', is_k', same_k, _) = from w k is_k in
            v.distinct u w j' k' id is_j' is_k' (same_j ∙ fj) (same_k ∙ fk);
        rows = λ id u r. to id u (v.rows id u r);
        pending = λ id u r. let (n, o) = v.pending id u r in (n, to id u o);
        tracked = λ u k id is_k f h.
            let (k', is_k', same_k, live_k) = from u k is_k in
            v.tracked u k' id is_k' (same_k ∙ f) (live_k h);
        closed = λ c.
            let (n, told) = v.closed c in
            (
              n,
              λ u k id is_k f h.
                  let (k', is_k', same_k, live_k) = from u k is_k in
                  told u k' id is_k' (same_k ∙ f) (live_k h),
            );
      }
