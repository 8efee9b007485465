-- ===== src/Migration/Names.antt =====
-- Which figure a metric sets.
use kubevirt_webgui.Base.{
  ℕ, zero, suc, ◌≡◌, refl, sym, subst, inl, inr, false, some, Str, codes, str_eq, str_eq_iff,
  Bool-cases, if◌then◌else◌,
}
use kubevirt_webgui.Migration.{Transfer, metric_of, set_metric}

-- A property of all names holds if it holds of those that are told apart and of the others.
by_name :
    (P : Str → Type 0)
    → P (codes "data_bytes_total")
    → P (codes "data_total_bytes")
    → P (codes "data_processed_bytes")
    → P (codes "data_remaining_bytes")
    → P (codes "memory_transfer_rate_bytes")
    → P (codes "dirty_memory_rate_bytes")
    → ((k : Str)
        → str_eq k (codes "data_bytes_total") ≡ false
        → str_eq k (codes "data_total_bytes") ≡ false
        → str_eq k (codes "data_processed_bytes") ≡ false
        → str_eq k (codes "data_remaining_bytes") ≡ false
        → str_eq k (codes "memory_transfer_rate_bytes") ≡ false
        → str_eq k (codes "dirty_memory_rate_bytes") ≡ false
        → P k)
    → (k : Str) → P k
by_name P a b c d e f o k = on (codes "data_bytes_total") a (λ n1.
    on (codes "data_total_bytes") b (λ n2. on (codes "data_processed_bytes") c (λ n3.
      on (codes "data_remaining_bytes") d (λ n4.
        on (codes "memory_transfer_rate_bytes") e
          (λ n5. on (codes "dirty_memory_rate_bytes") f (λ n6. o k n1 n2 n3 n4 n5 n6))))))
  where
    on : (name : Str) → P name → (str_eq k name ≡ false → P k) → P k
    on name p h = elim (Bool-cases (str_eq k name)) [
      | inl same ↦ subst P (sym ((str_eq_iff k name).0 same)) p
      | inr differs ↦ h differs
    ]

module _ {F : Type 0} where
  -- What a sample sets, by its name.
  abbrev pub Sets : (F → ℕ) → F → ℕ → Transfer F → Str → Type 0
  Sets to_bytes v at t k =
      let u = set_metric to_bytes (metric_of k) v at t in
      (u.processed
        ≡ (if str_eq k (codes "data_processed_bytes") then some (to_bytes v) else t.processed))
      × (u.remaining
          ≡ (if str_eq k (codes "data_remaining_bytes") then some (to_bytes v) else t.remaining))
      × (u.transfer_rate
          ≡ (if str_eq k (codes "memory_transfer_rate_bytes") then some v else t.transfer_rate))
      × (u.dirty_rate
          ≡ (if str_eq k (codes "dirty_memory_rate_bytes") then some v else t.dirty_rate))

  pub set_metric-Sets :
      (to_bytes : F → ℕ) (v : F) (at : ℕ) (t : Transfer F) (k : Str) → Sets to_bytes v at t k
  unfolding set_metric metric_of str_eq
  set_metric-Sets to_bytes v zero t =
      by_name (Sets to_bytes v 0 t) (refl, refl, refl, refl) (refl, refl, refl, refl)
        (refl, refl, refl, refl) (refl, refl, refl, refl) (refl, refl, refl, refl)
        (refl, refl, refl, refl) (λ k a b c d e f. rw (a, b, c, d, e, f) (refl, refl, refl, refl))
  set_metric-Sets to_bytes v (suc at) t =
      by_name (Sets to_bytes v (suc at) t) (refl, refl, refl, refl) (refl, refl, refl, refl)
        (refl, refl, refl, refl) (refl, refl, refl, refl) (refl, refl, refl, refl)
        (refl, refl, refl, refl) (λ k a b c d e f. rw (a, b, c, d, e, f) (refl, refl, refl, refl))
