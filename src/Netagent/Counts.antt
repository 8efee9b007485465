-- ===== src/Netagent/Counts.antt =====
-- What the agent reads of a pod: its own rules, the bridge of an interface, and the packets that were
-- translated (src/netagent/plan.rs).
use kubevirt_webgui.Base.{
  ℕ, ◌+◌, ◌%◌, ◌^◌, Bool, true, false, not, ◌&&◌, ◌==◌, List, [], ◌∷◌, ◌++◌, map, first, Option,
  none, some, Str, codes, str_eq, is_empty, is_space, starts_with, strip_prefix, contains, split,
  split_once, trim, if◌then◌else◌,
}
use kubevirt_webgui.Base.Numbers.{parse_below}
use kubevirt_webgui.Netagent.Plan.{comment_prefix, split_whitespace}
pub mod Sums
mod Tests

abbrev pub drop_empty_end : List Str → List Str
drop_empty_end [] = []
drop_empty_end ([] ∷ []) = []
drop_empty_end (line ∷ rest) = line ∷ drop_empty_end rest

abbrev pub drop_return : Str → Str
drop_return [] = []
drop_return (c ∷ s) = let rest = drop_return s in if c == 13 && is_empty s then [] else c ∷ rest

-- `str::lines`.
unfoldable pub lines : Str → List Str
unfolding split
lines s = map drop_return (drop_empty_end (split 10 s))

abbrev pub after_char : ℕ → Option (Str × Str) → Option (Str × Str)
after_char c none = none
after_char c (some (before, rest)) = some (c ∷ before, rest)

-- `s.find(needle)`: what stands before the needle and what behind it, where it occurs first.
unfoldable pub cut_at : Str → Str → Option (Str × Str)
cut_at needle [] = none
cut_at needle (c ∷ s) =
    let later = after_char c (cut_at needle s) in
    elim (strip_prefix needle (c ∷ s)) [ some rest ↦ some ([], rest) | none ↦ later ]

abbrev pub plain : Str
plain = codes "--comment " ++ comment_prefix

abbrev pub quoted : Str
quoted = codes "--comment \"" ++ comment_prefix

abbrev pub unquote : Str → Option (Str × Str) → Option Str
unquote before none = none
unquote before (some (comment, rest)) = some (before ++ (plain ++ (comment ++ rest)))

-- A rule of the agent, with its comment unquoted.
unfoldable pub owned_rule : Str → Option (Str × Str) → Option Str
unfolding split_once
owned_rule line none = if contains plain line then some line else none
owned_rule line (some (before, rest)) = unquote before (split_once b'"' rest)

abbrev pub push_some : Option Str → List Str → List Str
push_some none rest = rest
push_some (some s) rest = s ∷ rest

unfoldable pub owned_of : List Str → List Str
unfolding owned_rule cut_at trim
owned_of [] = []
owned_of (raw ∷ rest) =
    let line = trim raw in
    let later = owned_of rest in
    if starts_with (codes "-A POSTROUTING") line
    then push_some (owned_rule line (cut_at quoted line)) later
    else later

unfoldable pub owned_rules : Str → List Str
unfolding owned_of lines
owned_rules listing = owned_of (lines listing)

abbrev pub without_pod : Str → Option Str → Str
without_pod name none = name
without_pod name (some id) = id

unfoldable pub bridge_for : Str → List Str → Option Str
unfolding str_eq
bridge_for pod_interface bridges =
    first
      (str_eq
        (codes "k6t-" ++ without_pod pod_interface (strip_prefix (codes "pod") pod_interface)))
      bridges

abbrev pub word : Str → Str
word [] = []
word (c ∷ s) = let rest = word s in if is_space c then [] else c ∷ rest

abbrev pub or_zero : Option ℕ → ℕ
or_zero none = 0
or_zero (some n) = n

unfoldable pub first_number : List Str → ℕ
unfolding parse_below
first_number [] = 0
first_number (w ∷ ws) = or_zero (parse_below (2 ^ 64) w)

-- The interface of a line of the agent's, and its packets.
abbrev pub counted : Str → Option (Str × Str) → Option (Str × ℕ)
counted line none = none
counted line (some (before, rest)) = some (word rest, first_number (split_whitespace line))

unfoldable pub line_count : Str → Option (Str × ℕ)
unfolding cut_at
line_count line = counted line (cut_at (codes "/* " ++ comment_prefix) line)

unfoldable pub add_count : Str → ℕ → List (Str × ℕ) → List (Str × ℕ)
add_count interface packets [] = (interface, packets) ∷ []
add_count interface packets ((i, n) ∷ rest) =
    let later = add_count interface packets rest in
    if str_eq i interface then (i, (n + packets) % 2 ^ 64) ∷ rest else (i, n) ∷ later

abbrev pub add_line : Option (Str × ℕ) → List (Str × ℕ) → List (Str × ℕ)
add_line none counts = counts
add_line (some (interface, packets)) counts = add_count interface packets counts

unfoldable pub add_lines : List Str → List (Str × ℕ) → List (Str × ℕ)
unfolding add_count line_count
add_lines [] counts = counts
add_lines (line ∷ rest) counts = add_lines rest (add_line (line_count line) counts)

unfoldable pub packet_counts : Str → List (Str × ℕ)
unfolding add_lines lines
packet_counts listing = add_lines (lines listing) []
