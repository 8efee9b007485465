-- ===== src/Migration/Newest.antt =====
-- Each figure of a transfer is the newest sample of its metric.
use kubevirt_webgui.Base.{
  ℕ, ◌≤◌, ◌≡◌, ◌↔◌, ◌⊎◌, refl, ap, subst, ◌∙◌, inl, inr, true, false, List, [], ◌∷◌, Option, none,
  some, Str, codes, str_eq, str_eq_iff, arith, Bool-cases, if◌then◌else◌,
}
use kubevirt_webgui.Base.Maps.{Table, no_rows, insert}
use kubevirt_webgui.Netagent.Counts.{lines}
use kubevirt_webgui.Migration.{
  Transfer, Sample, metric_of, nothing, set_metric, is_after, take_sample, take_samples, read_lines,
  parse_transfer,
}
use kubevirt_webgui.Migration.Names.{set_metric-Sets}

module _ {F : Type 0} where
  abbrev pub IsIn : Sample F → List (Sample F) → Type 0
  IsIn s [] = ⊥
  IsIn s (x ∷ xs) = (x ≡ s) ⊎ IsIn s xs

  -- Of the samples of a metric, one at which none is older, or none if there is none.
  abbrev pub IsNewest : Str → (Sample F → Type 0) → Option (Sample F) → Type 0
  IsNewest m P none = (s : Sample F) → P s → s.metric ≡ m → ⊥
  IsNewest m P (some n) = P n × (n.metric ≡ m) × ((s : Sample F) → P s → s.metric ≡ m → s.at ≤ n.at)

  abbrev pub value_by : {B : Type 0} → (F → B) → Option (Sample F) → Option B
  value_by conv none = none
  value_by conv (some s) = some (conv s.value)

  abbrev time_of : Option (Sample F) → Option ℕ
  time_of none = none
  time_of (some s) = some s.at

  module _ (to_bytes : F → ℕ) {B : Type 0} (get : Transfer F → Option B) (conv : F → B) (m : Str)
      (law : (k : Str) (v : F) (at : ℕ) (t : Transfer F)
        → get (set_metric to_bytes (metric_of k) v at t)
          ≡ (if str_eq k m then some (conv v) else get t)) where
    abbrev Shows : (Sample F → Type 0) → Transfer F × Table ℕ → Type 0
    Shows P state =
        (o : Option (Sample F)) × IsNewest m P o
        × (get state.0 ≡ value_by conv o)
        × (state.1 m ≡ time_of o)

    Shows-iff :
        (P Q : Sample F → Type 0) (state : Transfer F × Table ℕ)
        → ((s : Sample F) → P s ↔ Q s)
        → Shows P state
        → Shows Q state
    Shows-iff P Q state e (none, n, g, t) = (none, λ s q. n s ((e s).1 q), g, t)
    Shows-iff P Q state e (some x, (p, i, n), g, t) =
        (some x, ((e x).0 p, i, λ s q. n s ((e s).1 q)), g, t)

    -- A sample of another metric, or one that is older, changes nothing.
    stays :
        (P : Sample F → Type 0) (x : Sample F) (o : Option (Sample F))
        → (x.metric ≡ m → (n : Sample F) × (o ≡ some n) × (x.at ≤ n.at))
        → IsNewest m P o
        → IsNewest m (λ s. P s ⊎ (x ≡ s)) o
    stays P x none h n = λ s q e. elim q [
      | inl p ↦ n s p e
      | inr is_x ↦ let (y, q, l) = h (ap (λ (z : Sample F). z.metric) is_x ∙ e) in cc
    ]
    stays P x (some y) h (p, i, n) = (
      inl p,
      i,
      λ s q e. elim q [
        | inl old ↦ n s old e
        | inr is_x ↦
            let (z, is_z, l) = h (ap (λ (w : Sample F). w.metric) is_x ∙ e) in
            let same : y ≡ z = cc in
            omega (arith, l, ap (λ (w : Sample F). w.at) is_x, ap (λ (w : Sample F). w.at) same)
      ],
    )

    -- A sample of the metric that is not older takes the place.
    takes_over :
        (P : Sample F → Type 0) (x : Sample F) (o : Option (Sample F))
        → x.metric ≡ m
        → ((n : Sample F) → o ≡ some n → n.at ≤ x.at)
        → IsNewest m P o
        → IsNewest m (λ s. P s ⊎ (x ≡ s)) (some x)
    takes_over P x o is_m h n = (
      inr refl,
      is_m,
      λ s q e. elim q [
        | inl old ↦ earlier o h n s old e
        | inr is_x ↦ omega (arith, ap (λ (w : Sample F). w.at) is_x)
      ],
    )
      where
        earlier :
            (o : Option (Sample F))
            → ((n : Sample F) → o ≡ some n → n.at ≤ x.at)
            → IsNewest m P o
            → (s : Sample F) → P s
            → s.metric ≡ m
            → s.at ≤ x.at
        earlier none h n s p e = absurd (n s p e)
        earlier (some y) h (p, i, n) s q e = omega (arith, n s q e, h y refl)

    take_sample-Shows :
        (P : Sample F → Type 0) (x : Sample F) (t : Transfer F) (newest : Table ℕ)
        → Shows P (t, newest)
        → Shows (λ s. P s ⊎ (x ≡ s)) (take_sample to_bytes x (t, newest))
    unfolding take_sample insert
    take_sample-Shows P x t newest (o, n, g, w) =
        elim (Bool-cases (is_after (newest x.metric) x.at)) [
          | inl old ↦ rw old (
            o,
            stays P x o (λ e. older o (subst (λ r. is_after r x.at ≡ true) (ap newest e ∙ w) old))
                n,
            g,
            w,
          )
          | inr new ↦ rw new (takes new)
        ]
      where
        older :
            (o : Option (Sample F))
            → is_after (time_of o) x.at ≡ true
            → (n : Sample F) × (o ≡ some n) × (x.at ≤ n.at)
        older none e = cc
        older (some y) e = (y, refl, ground arith)

        not_older : (y : Sample F) → is_after (some y.at) x.at ≡ false → y.at ≤ x.at
        not_older y e = ground arith

        takes :
            is_after (newest x.metric) x.at ≡ false
            → Shows
                (λ s. P s ⊎ (x ≡ s))
                (
                  set_metric to_bytes (metric_of x.metric) x.value x.at t,
                  insert x.metric x.at newest,
                )
        takes new = elim (Bool-cases (str_eq x.metric m)) [
          | inl same ↦
              let is_m = (str_eq_iff x.metric m).0 same in
              (
                some x,
                takes_over P x o is_m
                    (λ y e. not_older y (
                      subst (λ r. is_after r x.at ≡ false) (ap newest is_m ∙ w ∙ ap time_of e) new))
                    n,
                law x.metric x.value x.at t ∙ rw same refl,
                rw same refl,
              )
          | inr differs ↦ (
            o,
            stays P x o (λ e. absurd (ground (arith, (str_eq_iff x.metric m).1 e))) n,
            law x.metric x.value x.at t ∙ rw differs g,
            rw differs w,
          )
        ]

    take_samples-Shows :
        (P : Sample F → Type 0) (xs : List (Sample F)) (state : Transfer F × Table ℕ)
        → Shows P state
        → Shows (λ s. P s ⊎ IsIn s xs) (take_samples to_bytes xs state)
    unfolding take_samples
    take_samples-Shows P [] state h =
        Shows-iff P (λ s. P s ⊎ ⊥) state
          (λ s. (λ p. inl p, λ q. elim q [ inl p ↦ p | inr b ↦ absurd b ])) h
    take_samples-Shows P (x ∷ xs) (t, newest) h =
        let Q : Sample F → Type 0 = λ s. P s ⊎ (x ≡ s) in
        Shows-iff (λ s. Q s ⊎ IsIn s xs) (λ s. P s ⊎ IsIn s (x ∷ xs))
          (take_samples to_bytes xs (take_sample to_bytes x (t, newest)))
          (λ s. (
            λ q. elim q [
              | inl a ↦ elim a [ inl p ↦ inl p | inr e ↦ inr (inl e) ]
              | inr later ↦ inr (inr later)
            ],
            λ q. elim q [
              | inl p ↦ inl (inl p)
              | inr a ↦ elim a [ inl e ↦ inl (inr e) | inr later ↦ inr later ]
            ],
          ))
          (take_samples-Shows Q xs (take_sample to_bytes x (t, newest))
            (take_sample-Shows P x t newest h))

    -- What a figure shows after all samples, when it showed nothing before.
    shown :
        (xs : List (Sample F)) (t : Transfer F)
        → get t ≡ none
        → (o : Option (Sample F)) × IsNewest m (λ s. IsIn s xs) o
          × (get (take_samples to_bytes xs (t, no_rows)).0 ≡ value_by conv o)
    shown xs t e =
        let start : Shows (λ s. ⊥) (t, no_rows) = (none, λ s b. absurd b, e, refl) in
        let (o, n, g, w) =
          Shows-iff (λ s. ⊥ ⊎ IsIn s xs) (λ s. IsIn s xs) (take_samples to_bytes xs (t, no_rows))
            (λ s. (λ q. elim q [ inl b ↦ absurd b | inr i ↦ i ], λ i. inr i))
            (take_samples-Shows (λ s. ⊥) xs (t, no_rows) start) in
        (o, n, g)

  -- A figure that comes from the newest sample of a metric.
  abbrev pub IsFrom : {B : Type 0} → (F → B) → Str → List (Sample F) → Option B → Type 0
  IsFrom conv m samples figure =
      (o : Option (Sample F)) × IsNewest m (λ s. IsIn s samples) o × (figure ≡ value_by conv o)

  module _ (to_bytes : F → ℕ) (parse_float : Str → Option F) (parse_time : Str → Option ℕ) where
    -- Of the samples that the text has for the machine, in whatever order, the bytes processed, the bytes
    -- remaining and the two rates are each that of a sample at which no other sample of its metric is
    -- newer, and are missing exactly where there is no sample.
    pub parse_transfer-IsFrom :
        (metrics namespace vmi : Str)
        → let samples = read_lines to_bytes parse_float parse_time namespace vmi (lines metrics) in
          let t = parse_transfer to_bytes parse_float parse_time metrics namespace vmi in
          IsFrom to_bytes (codes "data_processed_bytes") samples t.processed
          × IsFrom to_bytes (codes "data_remaining_bytes") samples t.remaining
          × IsFrom (λ v. v) (codes "memory_transfer_rate_bytes") samples t.transfer_rate
          × IsFrom (λ v. v) (codes "dirty_memory_rate_bytes") samples t.dirty_rate
    unfolding parse_transfer
    parse_transfer-IsFrom metrics namespace vmi =
        let samples = read_lines to_bytes parse_float parse_time namespace vmi (lines metrics) in
        let sets = set_metric-Sets to_bytes in
        (
          shown to_bytes (λ (t : Transfer F). t.processed) to_bytes (codes "data_processed_bytes")
              (λ k v at t. (sets v at t k).0) samples nothing refl,
          shown to_bytes (λ (t : Transfer F). t.remaining) to_bytes (codes "data_remaining_bytes")
              (λ k v at t. (sets v at t k).1) samples nothing refl,
          shown to_bytes (λ (t : Transfer F). t.transfer_rate) (λ v. v)
              (codes "memory_transfer_rate_bytes") (λ k v at t. (sets v at t k).2) samples nothing
              refl,
          shown to_bytes (λ (t : Transfer F). t.dirty_rate) (λ v. v)
              (codes "dirty_memory_rate_bytes") (λ k v at t. (sets v at t k).3) samples nothing
              refl,
        )
