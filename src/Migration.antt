-- ===== src/Migration.antt =====
-- How far a live migration is (`parse_transfer` and `TaskReporter` in src/extensions/migration.rs).
-- `F` is the type of floating-point numbers; reading them, and reading times, which are not before 1970,
-- are arguments.
use kubevirt_webgui.Base.{
  ℕ, zero, suc, ◌+◌, ◌*◌, ◌/◌, ◌-◌, Bool, true, false, not, ◌&&◌, ◌||◌, ◌==◌, List, [], ◌∷◌, ◌++◌,
  Option, none, some, Str, codes, str_eq, ltb, split_once, strip_prefix, trim, trim_start, length,
  if◌then◌else◌,
}
use kubevirt_webgui.Base.Maps.{Table, no_rows, insert}
use kubevirt_webgui.Netagent.Counts.{lines, cut_at}
use kubevirt_webgui.Netagent.Plan.{split_whitespace}
pub mod Labels
pub mod Names
pub mod Newest
mod Tests

abbrev pub is_comma : ℕ → Bool
is_comma c = c == b','

abbrev pub label_name : Str → Str
label_name before = trim (trim_start is_comma before)

-- One round of the loop of `label`: what is found, or the next rounds on what is left.
unfoldable pub found_or_next :
    Str → Str → (Str → Option (Option Str)) → Option (Str × Str) → Option (Option Str)
unfolding str_eq
found_or_next key before next none = some none
found_or_next key before next (some (value, rest)) =
    if str_eq (label_name before) key then some (some value) else next rest

unfoldable pub round : Str → (Str → Option (Option Str)) → Option (Str × Str) → Option (Option Str)
unfolding found_or_next split_once
round key next none = some none
round key next (some (before, after)) = found_or_next key before next (split_once b'"' after)

-- The loop, on fuel: what it returns, or none where the fuel ran out.
unfoldable pub label_from : ℕ → Str → Str → Option (Option Str)
unfolding round cut_at
label_from zero key rest = none
label_from (suc f) key rest = round key (label_from f key) (cut_at (codes "=\"") rest)

-- The value of `key="…"` in a Prometheus label set.
unfoldable pub label : Str → Str → Option Str
unfolding label_from
label labels key = elim (label_from (suc (length labels)) key labels) [ some v ↦ v | none ↦ none ]

pub data Metric : Type 0 where
  total processed remaining transfer_rate dirty_rate other : Metric

unfoldable pub metric_of : Str → Metric
unfolding str_eq
metric_of s =
    if str_eq s (codes "data_bytes_total") || str_eq s (codes "data_total_bytes")
    then total
    else if str_eq s (codes "data_processed_bytes")
    then processed
    else if str_eq s (codes "data_remaining_bytes")
    then remaining
    else if str_eq s (codes "memory_transfer_rate_bytes")
    then transfer_rate
    else if str_eq s (codes "dirty_memory_rate_bytes")
    then dirty_rate
    else other

-- One sample of a migration's transfer.
pub record Transfer (F : Type 0) : Type 0 where
  pub total : Option ℕ
  pub processed : Option ℕ
  pub remaining : Option ℕ
  pub transfer_rate : Option F
  pub dirty_rate : Option F
  pub sampled_at : Option ℕ

-- What a line says: the name of a metric, its value and when it was measured.
pub record Sample (F : Type 0) : Type 0 where
  pub metric : Str
  pub value : F
  pub at : ℕ

-- `Transfer::done`: bytes of `total` no longer outstanding.
unfoldable pub done : {F : Type 0} → Transfer F → Option ℕ
done t = elim t.total [
  | none ↦ none
  | some all ↦ elim t.remaining [ none ↦ none | some left ↦ some (all - left) ]
]

abbrev pub later_of : Option ℕ → ℕ → ℕ
later_of none at = at
later_of (some t) at = if ltb t at then at else t

abbrev pub is_after : Option ℕ → ℕ → Bool
is_after none at = false
is_after (some seen) at = ltb at seen

module _ {F : Type 0} where
  abbrev pub nothing : Transfer F
  nothing = record {
    total = none;
    processed = none;
    remaining = none;
    transfer_rate = none;
    dirty_rate = none;
    sampled_at = none;
  }

module _ {F : Type 0} (to_bytes : F → ℕ) where
  abbrev pub mark : ℕ → Transfer F → Transfer F
  mark zero t = t
  mark (suc at) t = record t { sampled_at = some (later_of t.sampled_at (suc at)) }

  unfoldable pub set_metric : Metric → F → ℕ → Transfer F → Transfer F
  set_metric total v at t = mark at (record t { total = some (to_bytes v) })
  set_metric processed v at t = mark at (record t { processed = some (to_bytes v) })
  set_metric remaining v at t = mark at (record t { remaining = some (to_bytes v) })
  set_metric transfer_rate v at t = mark at (record t { transfer_rate = some v })
  set_metric dirty_rate v at t = mark at (record t { dirty_rate = some v })
  set_metric other v at t = t

  unfoldable pub take_sample : Sample F → Transfer F × Table ℕ → Transfer F × Table ℕ
  unfolding set_metric metric_of insert
  take_sample s (t, newest) =
      if is_after (newest s.metric) s.at
      then (t, newest)
      else (set_metric (metric_of s.metric) s.value s.at t, insert s.metric s.at newest)

  unfoldable pub take_samples : List (Sample F) → Transfer F × Table ℕ → Transfer F × Table ℕ
  unfolding take_sample
  take_samples [] state = state
  take_samples (s ∷ rest) state = take_samples rest (take_sample s state)

  module _ (parse_float : Str → Option F) (parse_time : Str → Option ℕ) where
    abbrev pub time_in : List Str → ℕ
    time_in [] = 0
    time_in (w ∷ ws) = elim (parse_time w) [ some n ↦ n | none ↦ 0 ]

    abbrev pub sample_in : Str → List Str → Option (Sample F)
    sample_in metric [] = none
    sample_in metric (w ∷ ws) = elim (parse_float w) [
      | none ↦ none
      | some v ↦ some (record { metric = metric; value = v; at = time_in ws })
    ]

    abbrev pub says : Option Str → Str → Bool
    says none s = false
    says (some v) s = str_eq v s

    unfoldable pub labelled : Str → Str → Str → Option (Str × Str) → Option (Sample F)
    unfolding label split_whitespace str_eq
    labelled namespace vmi metric none = none
    labelled namespace vmi metric (some (labels, rest)) =
        if not (says (label labels (codes "namespace")) namespace)
          || not (says (label labels (codes "name")) vmi)
        then none
        else sample_in metric (split_whitespace rest)

    abbrev pub measured : Str → Str → Option (Str × Str) → Option (Sample F)
    unfolding labelled split_once
    measured namespace vmi none = none
    measured namespace vmi (some (metric, rest)) =
        labelled namespace vmi metric (split_once b'}' rest)

    abbrev pub after_prefix : Str → Str → Option Str → Option (Sample F)
    unfolding split_once labelled
    after_prefix namespace vmi none = none
    after_prefix namespace vmi (some rest) = measured namespace vmi (split_once b'{' rest)

    unfoldable pub read_line : Str → Str → Str → Option (Sample F)
    unfolding labelled split_once
    read_line namespace vmi line =
        after_prefix namespace vmi (strip_prefix (codes "kubevirt_vmi_migration_") line)

    unfoldable pub read_lines : Str → Str → List Str → List (Sample F)
    unfolding read_line
    read_lines namespace vmi [] = []
    read_lines namespace vmi (line ∷ rest) =
        let more = read_lines namespace vmi rest in
        elim (read_line namespace vmi line) [ none ↦ more | some s ↦ s ∷ more ]

    -- Parse virt-handler's metrics for one VMI, keeping the newest sample of each.
    unfoldable pub parse_transfer : Str → Str → Str → Transfer F
    unfolding take_samples read_lines lines
    parse_transfer metrics namespace vmi =
        (take_samples (read_lines namespace vmi (lines metrics)) (nothing, no_rows)).0
