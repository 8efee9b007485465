-- ===== src/Netagent/Annotation/Tests.antt =====
-- An annotation with one entry. Addresses are written as one character here, numbers as three digits.
use kubevirt_webgui.Base.{
  ℕ, zero, suc, ◌+◌, ◌-◌, ◌/◌, ◌%◌, ◌^◌, ◌≤◌, ◌<◌, ◌≡◌, refl, ◌↔◌, Bool, true, false, ◌&&◌, ◌==◌,
  List, [], ◌∷◌, All, Option, none, some, Str, codes, str_eq, is_space, trim, trim_start, trim_end,
  split, split_once, leb, ltb, &&-eq-true, ==_iff, arith, ap, sym, subst, Bool-cases, inl, inr,
  if◌then◌else◌, Result, ok,
}
use kubevirt_webgui.Base.Numbers.{parse_below}
use kubevirt_webgui.Netagent.Annotation.{
  Entry, is_mac, read_range, range_text, cidr, check_all, parse,
}
use kubevirt_webgui.Netagent.Annotation.Canonical.{IsPrinting, network_of, cidr-canonical}
use kubevirt_webgui.Netagent.Annotation.Checked.{IsChecked, parse_iff}

abbrev first : ℕ
first = 2 ^ 26

abbrev print_ip : ℕ → Str
print_ip addr = (first + addr) ∷ []

abbrev parse_ip : Str → Option ℕ
parse_ip (c ∷ []) = if leb first c && ltb (c - first) (2 ^ 32) then some (c - first) else none
parse_ip _ = none

abbrev show : ℕ → Str
show n = (48 + n / 100 % 10) ∷ (48 + n / 10 % 10) ∷ (48 + n % 10) ∷ []

-- Every number below a bound is read as it was written.
abbrev is_number : Option ℕ → ℕ → Bool
is_number none n = false
is_number (some m) n = m == n

unfoldable reads_back : ℕ → Bool
unfolding parse_below
reads_back zero = true
reads_back (suc n) = is_number (parse_below 256 (show n)) n && reads_back n

is_number_sound : (o : Option ℕ) (n : ℕ) → is_number o n ≡ true → o ≡ some n
is_number_sound none n h = cc
is_number_sound (some m) n h = ap some ((==_iff m n).0 h)

reads_back_sound :
    (bound n : ℕ) → reads_back bound ≡ true → n < bound → parse_below 256 (show n) ≡ some n
unfolding reads_back
reads_back_sound zero n h lt = absurd (omega arith)
reads_back_sound (suc bound) n h lt =
    let (here, below) =
      &&-eq-true (is_number (parse_below 256 (show bound)) bound) (reads_back bound) h in
    elim (Bool-cases (n == bound)) [
      | inl last ↦
          subst (λ m. parse_below 256 (show m) ≡ some m) (sym ((==_iff n bound).0 last))
            (is_number_sound (parse_below 256 (show bound)) bound here)
      | inr other ↦ reads_back_sound bound n below (ground arith)
    ]

bytes_read_back : reads_back 256 ≡ true
unfolding reads_back
bytes_read_back = refl

no_space_high : (addr : ℕ) → is_space (first + addr) ≡ false
unfolding is_space
no_space_high addr = ground arith

no_space_digit : (n : ℕ) → n < 10 → is_space (48 + n) ≡ false
unfolding is_space
no_space_digit n h = ground arith

trimmed :
    (addr len : ℕ) → trim (range_text print_ip show addr len) ≡ range_text print_ip show addr len
unfolding trim trim_start trim_end
trimmed addr len = rw (no_space_high addr, no_space_digit (len % 10) (omega arith)) refl

small : (s : Str) (addr : ℕ) → parse_ip s ≡ some addr → addr < 2 ^ 32
small [] addr e = absurd (cc)
small (c ∷ []) addr e = ground arith
small (c ∷ d ∷ s) addr e = absurd (cc)

printing : IsPrinting parse_ip print_ip show
printing = record {
  slash_free = λ addr. ground arith;
  trimmed = trimmed;
  address = λ addr h. ground arith;
  small = small;
  number = λ n h. reads_back_sound 256 n bytes_read_back (omega arith);
}

-- 10.1.0.7/24
abbrev range : Str
range = range_text print_ip show (167837703) 24

cidr-canonical_example :
    (addr : ℕ) × (len : ℕ) × (read_range parse_ip range ≡ ok (addr, len))
    × (len ≤ 32)
    × (range_text print_ip show 167837696 24 ≡ range_text print_ip show (network_of addr len) len)
    × (cidr parse_ip print_ip show (range_text print_ip show 167837696 24)
        ≡ ok (range_text print_ip show 167837696 24))
unfolding cidr read_range trim split_once parse_below
cidr-canonical_example =
    cidr-canonical parse_ip print_ip show printing range (range_text print_ip show 167837696 24)
      refl

abbrev entry : Entry
entry = record {
  interface = codes "lan";
  clients = range ∷ [];
  guest_ip = some (codes "auto");
  snat_to = print_ip 167772161;
  gateway_mac = some (codes "AA:BB:CC:00:11:22");
  enabled = true;
}

abbrev read : Str → Result Str (List Entry)
read s = ok (entry ∷ [])

parse_iff_example :
    (parse parse_ip print_ip show read [] ≡ ok (entry ∷ []))
    ↔ ((read [] ≡ ok (entry ∷ [])) × All (IsChecked parse_ip print_ip show) (entry ∷ []))
parse_iff_example = parse_iff parse_ip print_ip show read [] (entry ∷ [])

-- A sign passes for a digit.
plus_is_mac : is_mac (codes "+1:+2:+3:+4:+5:+6") ≡ true
unfolding is_mac split
plus_is_mac = refl

entry_accepted : parse parse_ip print_ip show read [] ≡ ok (entry ∷ [])
unfolding parse check_all cidr read_range trim split_once parse_below str_eq is_mac split
entry_accepted = refl
