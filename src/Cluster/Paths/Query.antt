-- ===== src/Cluster/Paths/Query.antt =====
-- Query parameters come apart again as they were put together.
use kubevirt_webgui.Base.{
  ◌≡◌, refl, ◌⊎◌, inl, inr, List, [], ◌∷◌, Option, none, some, Str, codes, any-append, ◌==◌, arith,
  split, split_once, split_once-append, join, split-join, IsFree, AllFree,
}
use kubevirt_webgui.Cluster.Paths.{append_query, pairs, with_query}

-- The parameters that have a value.
abbrev pub present : List (Str × Option Str) → List (Str × Str)
present [] = []
present ((key, none) ∷ params) = present params
present ((key, some value) ∷ params) = (key, value) ∷ present params

-- How a server reads a query: at its ampersands, and each piece at its first equals sign.
unfoldable pub parse_pairs : List Str → List (Option (Str × Str))
parse_pairs [] = []
parse_pairs (piece ∷ pieces) = split_once b'=' piece ∷ parse_pairs pieces

unfoldable pub encoded : (Str → Str) → List (Str × Str) → List (Option (Str × Str))
encoded encode [] = []
encoded encode ((key, value) ∷ rest) = some (key, encode value) ∷ encoded encode rest

-- Keys are plain names.
abbrev pub PlainKeys : List (Str × Option Str) → Type 0
PlainKeys [] = Unit
PlainKeys ((key, value) ∷ params) = IsFree b'&' key × IsFree b'=' key × PlainKeys params

append_query-split :
    (base : Str) (ps : List Str)
    → IsFree b'?' base
    → AllFree b'&' ps
    → ((ps ≡ []) × (append_query base ps ≡ base))
      ⊎ ((query : Str) × (split_once b'?' (append_query base ps) ≡ some (base, query))
          × (split b'&' query ≡ ps))
unfolding append_query
append_query-split base [] free h = inl (refl, refl)
append_query-split base (p ∷ ps) free h =
    inr (join (codes "&") (p ∷ ps), split_once-append b'?' base _ free, split-join b'&' p ps h)

module _ (encode : Str → Str) (encode-free : (s : Str) → IsFree b'&' (encode s)) where
  pairs-AllFree :
      (params : List (Str × Option Str)) → PlainKeys params → AllFree b'&' (pairs encode params)
  unfolding pairs
  pairs-AllFree [] h = tt
  pairs-AllFree ((key, none) ∷ params) h = pairs-AllFree params h.2
  pairs-AllFree ((key, some value) ∷ params) h = (
    ground (arith, any-append (λ d. d == b'&') key (b'=' ∷ encode value), encode-free value),
    pairs-AllFree params h.2,
  )

  parse-pairs :
      (params : List (Str × Option Str))
      → PlainKeys params
      → parse_pairs (pairs encode params) ≡ encoded encode (present params)
  unfolding pairs parse_pairs encoded
  parse-pairs [] h = refl
  parse-pairs ((key, none) ∷ params) h = parse-pairs params h.2
  parse-pairs ((key, some value) ∷ params) h =
      ground (arith, split_once-append b'=' key (encode value) h.1, parse-pairs params h.2)

  none_present : (params : List (Str × Option Str)) → pairs encode params ≡ [] → present params ≡ []
  unfolding pairs
  none_present [] e = refl
  none_present ((key, none) ∷ params) e = none_present params e
  none_present ((key, some value) ∷ params) e = cc

  -- The encoding leaves no ampersand: with plain keys, what stands behind the first `?` of the result
  -- reads as the parameters that have a value, encoded, in their order; with none, the path is unchanged.
  pub with_query-parse :
      (base : Str) (params : List (Str × Option Str))
      → IsFree b'?' base
      → PlainKeys params
      → ((present params ≡ []) × (with_query encode base params ≡ base))
        ⊎ ((query : Str) × (split_once b'?' (with_query encode base params) ≡ some (base, query))
            × (parse_pairs (split b'&' query) ≡ encoded encode (present params)))
  unfolding with_query
  with_query-parse base params free h =
      elim (append_query-split base (pairs encode params) free (pairs-AllFree params h)) [
        | inl (bare, same) ↦ inl (none_present params bare, same)
        | inr (query, cut, pieces) ↦ inr (query, cut, rw pieces (parse-pairs params h))
      ]
