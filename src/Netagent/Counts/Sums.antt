-- ===== src/Netagent/Counts/Sums.antt =====
-- The packets of an interface are those of its lines.
use mathlib.Core.Bool.{false≢true}
use kubevirt_webgui.Base.{
  ℕ, zero, suc, codes, ◌++◌, ◌+◌, ◌%◌, ◌^◌, ◌<◌, ◌≤◌, ◌≡◌, refl, subst, ap, sym, ◌∙◌, Bool, true,
  false, List, [], ◌∷◌, All, Option, none, some, Str, str_eq, str_eq_iff, arith, Bool-cases, inl,
  inr, if◌then◌else◌,
}
use kubevirt_webgui.Base.Numbers.{parse_below, parse_below-lt}
use kubevirt_webgui.Netagent.Plan.{comment_prefix, split_whitespace}
use kubevirt_webgui.Netagent.Counts.{
  lines, cut_at, or_zero, first_number, counted, line_count, add_count, add_line, add_lines,
  packet_counts,
}

-- The count of an interface, and how many it has.
abbrev pub count_of : Str → List (Str × ℕ) → ℕ
count_of interface [] = 0
count_of interface ((i, n) ∷ rest) = if str_eq i interface then n else count_of interface rest

abbrev pub times : Str → List (Str × ℕ) → ℕ
times interface [] = 0
times interface ((i, n) ∷ rest) =
    if str_eq i interface then 1 + times interface rest else times interface rest

-- The packets of a line for an interface.
abbrev pub share : Str → Option (Str × ℕ) → ℕ
share interface none = 0
share interface (some (i, n)) = if str_eq i interface then n else 0

abbrev pub sum_of : Str → List Str → ℕ
unfolding line_count
sum_of interface [] = 0
sum_of interface (line ∷ rest) = share interface (line_count line) + sum_of interface rest

abbrev IsSmall : Str × ℕ → Type 0
IsSmall row = row.1 < 2 ^ 64

first_number-lt : (ws : List Str) → first_number ws < 2 ^ 64
unfolding first_number
first_number-lt [] = omega arith
first_number-lt (w ∷ ws) = go (parse_below (2 ^ 64) w) refl
  where
    go : (o : Option ℕ) → parse_below (2 ^ 64) w ≡ o → or_zero o < 2 ^ 64
    go none e = omega arith
    go (some n) e = parse_below-lt (2 ^ 64) w n (omega arith) e

count_of-lt :
    (interface : Str) (counts : List (Str × ℕ))
    → All IsSmall counts
    → count_of interface counts < 2 ^ 64
count_of-lt interface [] k = omega arith
count_of-lt interface ((j, m) ∷ rest) (s, k) = ground (arith, count_of-lt interface rest k)

-- The row that the packets are added to is that of their interface.
abbrev IsAdded : Str → Str → ℕ → List (Str × ℕ) → List (Str × ℕ) → Type 0
IsAdded interface i n counts after =
    (count_of interface after
      ≡ (count_of interface counts + share interface (some (i, n))) % 2 ^ 64)
    × All IsSmall after

IsAdded-same_row :
    (interface i j : Str) (n m : ℕ) (rest : List (Str × ℕ))
    → j ≡ i
    → All IsSmall ((j, m) ∷ rest)
    → IsAdded interface i n ((j, m) ∷ rest) ((j, (m + n) % 2 ^ 64) ∷ rest)
IsAdded-same_row interface i j n m rest same (s, k) = (
  ground (arith, ap (λ t. str_eq t interface) same, count_of-lt interface rest k),
  (omega arith, k),
)

-- What agrees with one of two different names does not agree with the other.
apart : (i j name : Str) → str_eq j i ≡ false → str_eq j name ≡ true → str_eq i name ≡ false
apart i j name other mine = go (str_eq i name) refl
  where
    go : (b : Bool) → str_eq i name ≡ b → b ≡ false
    go true its = absurd (
        false≢true (
          sym other
          ∙ (str_eq_iff j i).1 ((str_eq_iff j name).0 mine ∙ sym ((str_eq_iff i name).0 its))))
    go false its = refl

IsAdded-other_row :
    (interface i j : Str) (n m : ℕ) (rest after : List (Str × ℕ))
    → str_eq j i ≡ false
    → All IsSmall ((j, m) ∷ rest)
    → IsAdded interface i n rest after
    → IsAdded interface i n ((j, m) ∷ rest) ((j, m) ∷ after)
IsAdded-other_row interface i j n m rest after other (s, k) (c, l) =
    elim (Bool-cases (str_eq j interface)) [
      | inl mine ↦ (rw (mine, apart i j interface other mine) (omega arith), (s, l))
      | inr its ↦ (rw its c, (s, l))
    ]

count-add_count :
    (interface i : Str) (n : ℕ) (counts : List (Str × ℕ))
    → n < 2 ^ 64
    → All IsSmall counts
    → IsAdded interface i n counts (add_count i n counts)
unfolding add_count
count-add_count interface i n [] h k = (ground arith, (h, tt))
count-add_count interface i n ((j, m) ∷ rest) h (s, k) = elim (Bool-cases (str_eq j i)) [
  | inl here ↦ rw here (IsAdded-same_row interface i j n m rest ((str_eq_iff j i).0 here) (s, k))
  | inr there ↦ rw there (
      IsAdded-other_row interface i j n m rest (add_count i n rest) there (s, k)
        (count-add_count interface i n rest h k))
]

-- An interface that is counted is listed; no other is listed anew.
raised : Bool → ℕ → ℕ
raised false n = n
raised true zero = 1
raised true (suc n) = suc n

times-add_count :
    (interface i : Str) (n : ℕ) (counts : List (Str × ℕ))
    → times interface (add_count i n counts) ≡ raised (str_eq i interface) (times interface counts)
unfolding add_count raised
times-add_count interface i n [] = ground arith
times-add_count interface i n ((j, m) ∷ rest) = elim (Bool-cases (str_eq j i)) [
  | inl here ↦ rw here (ground (arith, ap (λ t. str_eq t interface) ((str_eq_iff j i).0 here)))
  | inr there ↦ rw there (elim (Bool-cases (str_eq j interface)) [
    | inl mine ↦
        rw (mine, apart i j interface there mine)
          (ap (λ t. 1 + t)
            (times-add_count interface i n rest
              ∙ ap (λ b. raised b (times interface rest)) (apart i j interface there mine)))
    | inr its ↦ rw its (times-add_count interface i n rest)
  ])
]

raised-le : (b : Bool) (n : ℕ) → n ≤ 1 → raised b n ≤ 1
unfolding raised
raised-le false n h = h
raised-le true zero h = omega arith
raised-le true (suc n) h = h

times-add_line :
    (interface : Str) (o : Option (Str × ℕ)) (counts : List (Str × ℕ))
    → times interface counts ≤ 1
    → times interface (add_line o counts) ≤ 1
times-add_line interface none counts h = h
times-add_line interface (some (i, n)) counts h =
    subst (λ t. t ≤ 1) (sym (times-add_count interface i n counts))
      (raised-le (str_eq i interface) (times interface counts) h)

times-add_lines :
    (interface : Str) (ls : List Str) (counts : List (Str × ℕ))
    → times interface counts ≤ 1
    → times interface (add_lines ls counts) ≤ 1
unfolding add_lines
times-add_lines interface [] counts h = h
times-add_lines interface (line ∷ rest) counts h =
    times-add_lines interface rest (add_line (line_count line) counts)
      (times-add_line interface (line_count line) counts h)

abbrev IsSmallCount : Option (Str × ℕ) → Type 0
IsSmallCount none = Unit
IsSmallCount (some (i, n)) = n < 2 ^ 64

line_count-IsSmallCount : (line : Str) → IsSmallCount (line_count line)
unfolding line_count
line_count-IsSmallCount line = go (cut_at (codes "/* " ++ comment_prefix) line)
  where
    go : (o : Option (Str × Str)) → IsSmallCount (counted line o)
    go none = tt
    go (some (before, rest)) = first_number-lt (split_whitespace line)

add_line-IsAdded :
    (interface : Str) (o : Option (Str × ℕ)) (counts : List (Str × ℕ))
    → IsSmallCount o
    → All IsSmall counts
    → (count_of interface (add_line o counts)
        ≡ (count_of interface counts + share interface o) % 2 ^ 64)
      × All IsSmall (add_line o counts)
add_line-IsAdded interface none counts h k = (ground (arith, count_of-lt interface counts k), k)
add_line-IsAdded interface (some (i, n)) counts h k = count-add_count interface i n counts h k

count-add_lines :
    (interface : Str) (ls : List Str) (counts : List (Str × ℕ))
    → All IsSmall counts
    → count_of interface (add_lines ls counts)
      ≡ (count_of interface counts + sum_of interface ls) % 2 ^ 64
unfolding add_lines sum_of
count-add_lines interface [] counts k = ground (arith, count_of-lt interface counts k)
count-add_lines interface (line ∷ rest) counts k =
    let (added, small) =
      add_line-IsAdded interface (line_count line) counts (line_count-IsSmallCount line) k in
    omega (arith, added, count-add_lines interface rest (add_line (line_count line) counts) small)

-- Whatever iptables lists: no interface is counted twice, and the packets counted for an interface are
-- those of all its lines together, as far as a `u64` holds them.
pub packet_counts_lem :
    (interface listing : Str)
    → (times interface (packet_counts listing) ≤ 1)
      × (count_of interface (packet_counts listing) ≡ sum_of interface (lines listing) % 2 ^ 64)
unfolding packet_counts
packet_counts_lem interface listing = (
  times-add_lines interface (lines listing) [] (omega arith),
  omega (arith, count-add_lines interface (lines listing) [] tt),
)
