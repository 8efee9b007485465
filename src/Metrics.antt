-- ===== src/Metrics.antt =====
-- The samples that are kept for the graphs (src/metrics.rs). `V` is the type of the measured values,
-- which are floating-point numbers; times are in milliseconds.
use kubevirt_webgui.Base.{
  ℕ, zero, suc, ◌-◌, Bool, true, false, List, [], ◌∷◌, ◌++◌, Option, none, some, Str, length,
  drop_first, ltb, leb, if◌then◌else◌,
}
use kubevirt_webgui.Base.Maps.{Table, no_rows, insert}
pub mod Spaced
mod Tests

pub record Sample (V : Type 0) : Type 0 where
  pub ts : ℕ
  pub cpu : V
  pub memory : V

-- An hour at five-second resolution.
abbrev pub keep_samples : ℕ
keep_samples = 720

module _ {V : Type 0} where
  abbrev pub back : List (Sample V) → Option (Sample V)
  back [] = none
  back (s ∷ []) = some s
  back (s ∷ t ∷ rest) = back (t ∷ rest)

  -- Whether a sample repeats the last: an earlier one does too, its difference being negative.
  abbrev pub repeats : Option (Sample V) → Sample V → Bool
  repeats none sample = false
  repeats (some last) sample = ltb (sample.ts - last.ts) 2000

  unfoldable pub push : Sample V → List (Sample V) → List (Sample V)
  push sample points =
      if repeats (back points) sample
      then points
      else (if leb keep_samples (length points) then drop_first points else points) ++ (sample ∷ [])

  abbrev pub points_of : Option (List (Sample V)) → List (Sample V)
  points_of none = []
  points_of (some points) = points

  unfoldable pub record_sample : Str → Sample V → Table (List (Sample V)) → Table (List (Sample V))
  unfolding push insert
  record_sample key sample series = insert key (push sample (points_of (series key))) series

  unfoldable pub history : Str → Table (List (Sample V)) → List (Sample V)
  history key series = points_of (series key)
