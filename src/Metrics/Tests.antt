-- ===== src/Metrics/Tests.antt =====
-- Samples of two objects, one of them too early.
use kubevirt_webgui.Base.{ℕ, ◌≡◌, refl, List, [], ◌∷◌, Str, codes, str_eq}
use kubevirt_webgui.Base.Maps.{no_rows}
use kubevirt_webgui.Metrics.{Sample, history}
use kubevirt_webgui.Metrics.Spaced.{IsHistory, record_all, mine, history-IsHistory}

abbrev at : ℕ → Sample ℕ
at ts = record { ts = ts; cpu = 1; memory = 2 }

abbrev rows : List (Str × Sample ℕ)
rows =
    (codes "a", at 1000) ∷ (codes "b", at 1500) ∷ (codes "a", at 2000) ∷ (codes "a", at 6000) ∷ []

two_kept : history (codes "a") (record_all rows no_rows) ≡ at 1000 ∷ at 6000 ∷ []
unfolding history record_all str_eq
two_kept = refl

history-IsHistory_example :
    IsHistory (history (codes "a") (record_all rows no_rows))
    × (history (codes "a") (record_all rows no_rows) ≡ mine (codes "a") rows [])
history-IsHistory_example = history-IsHistory rows (codes "a")
