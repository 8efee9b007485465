-- ===== src/Migration/Labels.antt =====
-- The labels of a metric are found as they were printed.
use kubevirt_webgui.Base.{
  ℕ, zero, suc, ◌≤◌, ◌<◌, ◌≡◌, ◌≢◌, refl, ap, subst, ◌∙◌, Bool, false, List, [], ◌∷◌, ◌++◌, Option,
  none, some, Str, codes, str_eq, any, strip_prefix, is_space, IsFree, trim, trim_start, trim_end,
  split_once, split_once-append, split_once_sound, length, length-append, arith, if◌then◌else◌,
}
use kubevirt_webgui.Rpc.{lookup}
use kubevirt_webgui.Netagent.Counts.{cut_at, after_char}
use kubevirt_webgui.Migration.{is_comma, label_name, found_or_next, round, label_from, label}

strip_prefix-le : (p s rest : Str) → strip_prefix p s ≡ some rest → length rest ≤ length s
strip_prefix-le [] s rest e =
    let same : s ≡ rest = cc in subst (λ (r : Str). length r ≤ length s) same (omega arith)
strip_prefix-le (c ∷ p) [] rest e = cc
strip_prefix-le (c ∷ p) (d ∷ s) rest e = ground (arith, strip_prefix-le p s rest)

-- A cut leaves less than it was given.
cut_at-le :
    (c : ℕ) (needle s before after : Str)
    → cut_at (c ∷ needle) s ≡ some (before, after)
    → length after < length s
unfolding cut_at
cut_at-le c needle [] before after e = cc
cut_at-le c needle (d ∷ s) before after e =
    go (cut_at-le c needle s) (strip_prefix (c ∷ needle) (d ∷ s)) refl e
  where
    later :
        ((b a : Str) → cut_at (c ∷ needle) s ≡ some (b, a) → length a < length s)
        → (o : Option (Str × Str)) → cut_at (c ∷ needle) s ≡ o
        → after_char d o ≡ some (before, after)
        → length after < suc (length s)
    later ih none is_o h = cc
    later ih (some (b, a)) is_o h =
        let same : a ≡ after = cc in omega (arith, ih b a is_o, ap length same)

    go :
        ((b a : Str) → cut_at (c ∷ needle) s ≡ some (b, a) → length a < length s)
        → (o : Option Str) → strip_prefix (c ∷ needle) (d ∷ s) ≡ o
        → elim o as (λ _. Option (Str × Str)) [
          | some rest ↦ some ([], rest)
          | none ↦ after_char d (cut_at (c ∷ needle) s)
        ]
          ≡ some (before, after)
        → length after < suc (length s)
    go ih none is_o h = later ih (cut_at (c ∷ needle) s) refl h
    go ih (some rest) is_o h =
        let same : rest ≡ after = cc in
        let shorter : length rest ≤ length s = ground (arith, strip_prefix-le needle s rest) in
        omega (arith, shorter, ap length same)

split_once-lt :
    (sep : ℕ) (s before after : Str)
    → split_once sep s ≡ some (before, after)
    → length after < length s
split_once-lt sep s before after e =
    let (is_s, free) = split_once_sound sep s before after e in
    omega (arith, ap length is_s, length-append before (sep ∷ after))

-- The loop ends within as many rounds as the labels are long.
-- Two continuations that agree on what is shorter, and give an answer there, may stand for each other.
abbrev Agree : ℕ → (Str → Option (Option Str)) → (Str → Option (Option Str)) → Type 0
Agree n g h = (t : Str) → length t < n → (g t ≡ h t) × (g t ≢ none)

found_or_next-Agree :
    (key before after : Str) (g h : Str → Option (Option Str)) (o : Option (Str × Str))
    → split_once b'"' after ≡ o
    → Agree (length after) g h
    → (found_or_next key before g o ≡ found_or_next key before h o)
      × (found_or_next key before g o ≢ none)
unfolding found_or_next
found_or_next-Agree key before after g h none is_o e = (refl, λ p. cc)
found_or_next-Agree key before after g h (some (value, rest)) is_o e =
    let (same, there) = e rest (split_once-lt b'"' after value rest is_o) in
    (ground (arith, same), λ p. there (ground arith))

round-Agree :
    (key s : Str) (g h : Str → Option (Option Str)) (o : Option (Str × Str))
    → cut_at (codes "=\"") s ≡ o
    → Agree (length s) g h
    → (round key g o ≡ round key h o) × (round key g o ≢ none)
unfolding round
round-Agree key s g h none is_o e = (refl, λ p. cc)
round-Agree key s g h (some (before, after)) is_o e =
    found_or_next-Agree key before after g h (split_once b'"' after) refl
      (λ t l. e t (omega (arith, cut_at-le b'=' (b'"' ∷ []) s before after is_o)))

label_from-Agree :
    (f g : ℕ) (key s : Str)
    → length s < f
    → length s < g
    → (label_from f key s ≡ label_from g key s) × (label_from f key s ≢ none)
unfolding label_from
label_from-Agree zero g key s h k = elim h [ ]
label_from-Agree (suc f) zero key s h k = elim k [ ]
label_from-Agree (suc f) (suc g) key s h k =
    round-Agree key s (label_from f key) (label_from g key) (cut_at (codes "=\"") s) refl
      (λ t l. label_from-Agree f g key t (omega arith) (omega arith))

-- The loop ends: with more rounds than the labels have characters it gives its result, and however many
-- more there are, that result is the one of `label`.
pub label_from-label :
    (rounds : ℕ) (key labels : Str)
    → length labels < rounds
    → label_from rounds key labels ≡ some (label labels key)
unfolding label
label_from-label rounds key labels h =
    let (same, there) = label_from-Agree rounds (suc (length labels)) key labels h (omega arith) in
    same ∙ given (label_from (suc (length labels)) key labels) (λ e. there (same ∙ e))
  where
    given :
        (o : Option (Option Str))
        → o ≢ none
        → o ≡ some (elim o as (λ _. Option Str) [ some v ↦ v | none ↦ none ])
    given none n = absurd (n refl)
    given (some v) n = refl

-- A name as Prometheus has them: without `=`, commas and spaces.
abbrev pub IsName : Str → Type 0
IsName name = IsFree b'=' name × (any is_comma name ≡ false) × (any is_space name ≡ false)

trim_start_of : (p : ℕ → Bool) (s : Str) → any p s ≡ false → trim_start p s ≡ s
unfolding trim_start
trim_start_of p [] h = refl
trim_start_of p (c ∷ s) h = ground arith

trim_end_of : (p : ℕ → Bool) (s : Str) → any p s ≡ false → trim_end p s ≡ s
unfolding trim_end
trim_end_of p [] h = refl
trim_end_of p (c ∷ s) h = ground (arith, trim_end_of p s)

label_name_of : (name : Str) → IsName name → label_name name ≡ name
unfolding trim
label_name_of name (e, c, s) =
    rw (trim_start_of is_comma name c, trim_start_of is_space name s) (trim_end_of is_space name s)

label_name_after : (name : Str) → IsName name → label_name (b',' ∷ name) ≡ name
unfolding trim_start
label_name_after name n = label_name_of name n

cut_at-append :
    (name rest : Str)
    → IsFree b'=' name
    → cut_at (codes "=\"") (name ++ (b'=' ∷ b'"' ∷ rest)) ≡ some (name, rest)
unfolding cut_at
cut_at-append [] rest h = refl
cut_at-append (c ∷ s) rest h = ground (arith, cut_at-append s rest)

-- Labels as Prometheus prints them: `name="value"` with commas in between.
unfoldable pub print_more : List (Str × Str) → Str
print_more [] = []
print_more ((name, value) ∷ rest) =
    b',' ∷ (name ++ (b'=' ∷ b'"' ∷ (value ++ (b'"' ∷ print_more rest))))

unfoldable pub print_labels : List (Str × Str) → Str
unfolding print_more
print_labels [] = []
print_labels ((name, value) ∷ rest) = name ++ (b'=' ∷ b'"' ∷ (value ++ (b'"' ∷ print_more rest)))

abbrev pub AreLabels : List (Str × Str) → Type 0
AreLabels [] = Unit
AreLabels ((name, value) ∷ rest) = IsName name × IsFree b'"' value × AreLabels rest

one_round :
    (f : ℕ) (key before name value rest : Str)
    → IsFree b'=' before
    → IsFree b'"' value
    → label_name before ≡ name
    → label_from (suc f) key (before ++ (b'=' ∷ b'"' ∷ (value ++ (b'"' ∷ rest))))
      ≡ (if str_eq name key then some (some value) else label_from f key rest)
unfolding label_from round found_or_next
one_round f key before name value rest b v n =
    ap (round key (label_from f key)) (cut_at-append before (value ++ (b'"' ∷ rest)) b)
    ∙ ap (found_or_next key before (label_from f key)) (split_once-append b'"' value rest v)
    ∙ ap (λ x. if str_eq x key then some (some value) else label_from f key rest) n

label_from-print_more :
    (f : ℕ) (key : Str) (rows : List (Str × Str))
    → length rows < f
    → AreLabels rows
    → label_from f key (print_more rows) ≡ some (lookup key rows)
unfolding print_more lookup label_from round cut_at
label_from-print_more zero key rows h a = elim h [ ]
label_from-print_more (suc f) key [] h a = refl
label_from-print_more (suc f) key ((name, value) ∷ rest) h (n, v, a) =
    one_round f key (b',' ∷ name) name value (print_more rest) (ground arith) v
      (label_name_after name n)
    ∙ ground (arith, label_from-print_more f key rest)

length-print_more : (rows : List (Str × Str)) → length rows ≤ length (print_more rows)
unfolding print_more
length-print_more [] = omega arith
length-print_more ((name, value) ∷ rest) = omega (
  arith,
  length-append name (b'=' ∷ b'"' ∷ (value ++ (b'"' ∷ print_more rest))),
  length-append value (b'"' ∷ print_more rest),
  length-print_more rest,
)

-- A label is found in a printed set of labels exactly as it was printed: the value of the first label of
-- that name, or none where there is none; for names without `=`, commas and spaces and values without
-- quotation marks.
pub label-print_labels :
    (rows : List (Str × Str)) (key : Str)
    → AreLabels rows
    → label (print_labels rows) key ≡ lookup key rows
unfolding label print_labels lookup
label-print_labels [] key a = refl
label-print_labels ((name, value) ∷ rest) key (n, v, a) =
    let s = name ++ (b'=' ∷ b'"' ∷ (value ++ (b'"' ∷ print_more rest))) in
    let found : label_from (suc (length s)) key s ≡ some (lookup key ((name, value) ∷ rest)) =
      one_round (length s) key name name value (print_more rest) n.0 v (label_name_of name n)
      ∙ ground (
        arith,
        label_from-print_more (length s) key rest
            (omega (
              arith,
              length-append name (b'=' ∷ b'"' ∷ (value ++ (b'"' ∷ print_more rest))),
              length-append value (b'"' ∷ print_more rest),
              length-print_more rest,
            ))
            a,
      ) in
    ap (λ (o : Option (Option Str)). elim o as (λ _. Option Str) [ some w ↦ w | none ↦ none ]) found
