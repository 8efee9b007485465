-- ===== src/Metrics/Spaced.antt =====
-- A history is bounded and its samples keep their distance.
use kubevirt_webgui.Base.{
  ◌+◌, ◌≤◌, ◌≡◌, refl, ap, sym, ◌∙◌, subst, Bool, true, false, List, [], ◌∷◌, ◌++◌, some, Str,
  str_eq, str_eq_iff, length, drop_first, length-append, length-drop_first, leb, arith,
  if◌then◌else◌,
}
use kubevirt_webgui.Base.Maps.{Table, no_rows, insert}
use kubevirt_webgui.Metrics.{
  Sample, keep_samples, back, repeats, push, points_of, record_sample, history,
}

module _ {V : Type 0} where
  -- Each sample is at least two seconds after the one before.
  abbrev pub IsSpaced : List (Sample V) → Type 0
  IsSpaced [] = Unit
  IsSpaced (s ∷ []) = Unit
  IsSpaced (s ∷ t ∷ rest) = (s.ts + 2000 ≤ t.ts) × IsSpaced (t ∷ rest)

  abbrev pub IsHistory : List (Sample V) → Type 0
  IsHistory points = (length points ≤ keep_samples) × IsSpaced points

  IsSpaced-drop_first : (points : List (Sample V)) → IsSpaced points → IsSpaced (drop_first points)
  IsSpaced-drop_first [] h = tt
  IsSpaced-drop_first (s ∷ []) h = tt
  IsSpaced-drop_first (s ∷ t ∷ rest) (d, h) = h

  IsSpaced-append :
      (points : List (Sample V)) (sample : Sample V)
      → IsSpaced points
      → repeats (back points) sample ≡ false
      → IsSpaced (points ++ (sample ∷ []))
  IsSpaced-append [] sample h r = tt
  IsSpaced-append (s ∷ []) sample h r = (ground arith, tt)
  IsSpaced-append (s ∷ t ∷ rest) sample (d, h) r = (d, IsSpaced-append (t ∷ rest) sample h r)

  back-drop_first :
      (points : List (Sample V)) (sample : Sample V)
      → repeats (back points) sample ≡ false
      → repeats (back (drop_first points)) sample ≡ false
  back-drop_first [] sample r = refl
  back-drop_first (s ∷ []) sample r = refl
  back-drop_first (s ∷ t ∷ rest) sample r = r

  push-IsHistory :
      (sample : Sample V) (points : List (Sample V))
      → IsHistory points
      → IsHistory (push sample points)
  unfolding push
  push-IsHistory sample points (l, h) =
      go (repeats (back points) sample) (leb keep_samples (length points)) refl refl
    where
      go :
          (a b : Bool)
          → repeats (back points) sample ≡ a
          → leb keep_samples (length points) ≡ b
          → IsHistory
              (if a then points else (if b then drop_first points else points) ++ (sample ∷ []))
      go true b is_a is_b = (l, h)
      go false true is_a is_b = (
        omega (arith, length-append (drop_first points) (sample ∷ []), length-drop_first points),
        IsSpaced-append (drop_first points) sample (IsSpaced-drop_first points h)
            (back-drop_first points sample is_a),
      )
      go false false is_a is_b =
          (ground (arith, length-append points (sample ∷ [])), IsSpaced-append points sample h is_a)

  -- What is recorded, one sample after the other.
  unfoldable pub record_all :
      List (Str × Sample V) → Table (List (Sample V)) → Table (List (Sample V))
  unfolding record_sample
  record_all [] series = series
  record_all ((key, sample) ∷ rest) series = record_all rest (record_sample key sample series)

  history-record_sample :
      (key other : Str) (sample : Sample V) (series : Table (List (Sample V)))
      → history other (record_sample key sample series)
        ≡ (if str_eq key other then push sample (history key series) else history other series)
  unfolding history record_sample insert
  history-record_sample key other sample series = go (str_eq key other)
    where
      go :
          (b : Bool)
          → points_of (if b then some (push sample (points_of (series key))) else series other)
            ≡ (if b then push sample (points_of (series key)) else points_of (series other))
      go true = refl
      go false = refl

  unfoldable AreHistories : Table (List (Sample V)) → Type 0
  AreHistories series = (key : Str) → IsHistory (history key series)

  record_sample-AreHistories :
      (key : Str) (sample : Sample V) (series : Table (List (Sample V)))
      → AreHistories series
      → AreHistories (record_sample key sample series)
  unfolding AreHistories
  record_sample-AreHistories key sample series h other =
      subst IsHistory (sym (history-record_sample key other sample series)) (go (str_eq key other))
    where
      go :
          (b : Bool)
          → IsHistory (if b then push sample (history key series) else history other series)
      go true = push-IsHistory sample (history key series) (h key)
      go false = h other

  record_all-AreHistories :
      (rows : List (Str × Sample V)) (series : Table (List (Sample V)))
      → AreHistories series
      → AreHistories (record_all rows series)
  unfolding record_all
  record_all-AreHistories [] series h = h
  record_all-AreHistories ((key, sample) ∷ rest) series h =
      record_all-AreHistories rest (record_sample key sample series)
        (record_sample-AreHistories key sample series h)

  -- The samples for one key.
  unfoldable pub mine : Str → List (Str × Sample V) → List (Sample V) → List (Sample V)
  unfolding push
  mine key [] points = points
  mine key ((k, sample) ∷ rest) points =
      mine key rest (if str_eq k key then push sample points else points)

  history-record_all :
      (key : Str) (rows : List (Str × Sample V)) (series : Table (List (Sample V)))
      → history key (record_all rows series) ≡ mine key rows (history key series)
  unfolding record_all mine
  history-record_all key [] series = refl
  history-record_all key ((k, sample) ∷ rest) series =
      history-record_all key rest (record_sample k sample series)
      ∙ ap (mine key rest) (history-record_sample k key sample series ∙ own (str_eq k key) refl)
    where
      own :
          (b : Bool)
          → str_eq k key ≡ b
          → (if b then push sample (history k series) else history key series)
            ≡ (if b then push sample (history key series) else history key series)
      own true e = ap (λ j. push sample (history j series)) ((str_eq_iff k key).0 e)
      own false e = refl

  -- Whatever is recorded, in any order and for any keys: the history of each key has at most 720 samples,
  -- each at least two seconds after the one before, and it is what the samples for that key alone make.
  pub history-IsHistory :
      (rows : List (Str × Sample V)) (key : Str)
      → IsHistory (history key (record_all rows no_rows))
        × (history key (record_all rows no_rows) ≡ mine key rows [])
  unfolding AreHistories history
  history-IsHistory rows key = (
    record_all-AreHistories rows no_rows (λ k. (omega arith, tt)) key,
    history-record_all key rows no_rows,
  )
