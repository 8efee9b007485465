-- ===== src/Migration/Tests.antt =====
-- Two samples of one machine, with numbers as values.
use kubevirt_webgui.Base.{
  ℕ, ◌≡◌, refl, List, [], ◌∷◌, ◌++◌, Option, some, Str, codes, str_eq, is_space, trim, trim_start,
  trim_end, split_once, split, arith,
}
use kubevirt_webgui.Base.Numbers.{parse_below}
use kubevirt_webgui.Rpc.{lookup}
use kubevirt_webgui.Netagent.Counts.{lines}
use kubevirt_webgui.Migration.{label_from, label, done, read_lines, parse_transfer}
use kubevirt_webgui.Migration.Labels.{print_labels, label_from-label, label-print_labels}
use kubevirt_webgui.Migration.Newest.{IsFrom, parse_transfer-IsFrom}

abbrev rows : List (Str × Str)
rows = (codes "name", codes "web") ∷ (codes "namespace", codes "prod") ∷ []

printed : print_labels rows ≡ codes "name=\"web\",namespace=\"prod\""
unfolding print_labels
printed = refl

label-print_labels_example :
    label (print_labels rows) (codes "namespace") ≡ lookup (codes "namespace") rows
unfolding is_space
label-print_labels_example =
    label-print_labels rows (codes "namespace")
      ((refl, refl, refl), refl, ((refl, refl, refl), refl, tt))

label_from-label_example :
    label_from 100 (codes "namespace") (codes "name=\"web\",namespace=\"prod\"")
    ≡ some (label (codes "name=\"web\",namespace=\"prod\"") (codes "namespace"))
label_from-label_example =
    label_from-label 100 (codes "namespace") (codes "name=\"web\",namespace=\"prod\"") (omega arith)

abbrev reads : Str → Option ℕ
reads = parse_below 1000000

abbrev kept : ℕ → ℕ
kept n = n

abbrev metrics : Str
metrics =
    codes "kubevirt_vmi_migration_data_remaining_bytes{name=\"web\",namespace=\"prod\"} 15 200"
    ++ (10
        ∷ (codes
              "kubevirt_vmi_migration_data_remaining_bytes{name=\"web\",namespace=\"prod\"} 30 100"
            ++ (10
                ∷ (codes
                      "kubevirt_vmi_migration_data_bytes_total{name=\"web\",namespace=\"prod\"} 40 200"
                    ++ (10
                        ∷ codes
                            "kubevirt_vmi_migration_data_remaining_bytes{name=\"db\",namespace=\"prod\"} 99 900")))))

newest_kept :
    (parse_transfer kept reads reads metrics (codes "prod") (codes "web")).remaining ≡ some 15
unfolding parse_transfer is_space trim trim_start trim_end split_once split parse_below label str_eq
newest_kept = refl

moved : done (parse_transfer kept reads reads metrics (codes "prod") (codes "web")) ≡ some 25
unfolding done parse_transfer is_space trim trim_start trim_end split_once split parse_below label
    str_eq
moved = refl

parse_transfer-IsFrom_example :
    let samples = read_lines kept reads reads (codes "prod") (codes "web") (lines metrics) in
    let t = parse_transfer kept reads reads metrics (codes "prod") (codes "web") in
    IsFrom kept (codes "data_processed_bytes") samples t.processed
    × IsFrom kept (codes "data_remaining_bytes") samples t.remaining
    × IsFrom (λ v. v) (codes "memory_transfer_rate_bytes") samples t.transfer_rate
    × IsFrom (λ v. v) (codes "dirty_memory_rate_bytes") samples t.dirty_rate
parse_transfer-IsFrom_example =
    parse_transfer-IsFrom kept reads reads metrics (codes "prod") (codes "web")
