-- ===== src/Netagent/Annotation/Formats.antt =====
-- What the texts of an entry look like that the checks accept.
use Prim.Native.Nat.{bit_and}
use kubevirt_webgui.Base.{
  ℕ, ◌≤◌, ◌≡◌, refl, ap, sym, ◌∙◌, ◌↔◌, ◌⊎◌, inl, inr, Bool, true, false, ◌&&◌, ◌||◌, ◌==◌, List,
  [], ◌∷◌, ◌++◌, all, All, Option, none, some, Str, codes, has_char, trim, split, join, split_once,
  split_once_sound, split_once_of_IsFree, split_once-append, split-join, push_head, IsFree, AllFree,
  length, ltb, arith, Bool-cases, if◌then◌else◌, Result, ok, err, ◌>>=◌, >>=-eq-ok, or_fail, subst,
  &&-eq-true,
}
use kubevirt_webgui.Base.Numbers.{parse_below}
use kubevirt_webgui.Netagent.Annotation.{
  is_hex, is_hex_byte, is_mac, bad_length, no_address, with_length, read_range, cidr, mask_of,
  range_text,
}

-- A hexadecimal digit.
abbrev pub IsDigit : ℕ → Type 0
IsDigit c = has_char c (codes "0123456789abcdefABCDEF") ≡ true

-- Two digits, or a plus sign and a digit.
abbrev pub IsByte : Str → Type 0
IsByte s = (c : ℕ) × (d : ℕ) × (s ≡ c ∷ d ∷ []) × (IsDigit c ⊎ (c ≡ b'+')) × IsDigit d

-- Six of them around colons.
abbrev pub IsMac : Str → Type 0
IsMac s = (parts : List Str) × (s ≡ join (codes ":") parts) × (length parts ≡ 6) × All IsByte parts

is_hex-IsDigit : (c : ℕ) → is_hex c ≡ has_char c (codes "0123456789abcdefABCDEF")
is_hex-IsDigit c = ground arith

-- Two digits, or a plus sign and a digit, told by a test.
lead_lem : (c : ℕ) → is_hex c || c == b'+' ≡ true → IsDigit c ⊎ (c ≡ b'+')
lead_lem c h = elim (Bool-cases (is_hex c)) [
  | inl digit ↦ inl (sym (is_hex-IsDigit c) ∙ digit)
  | inr other ↦ inr (ground arith)
]

lead_back : (c : ℕ) → IsDigit c ⊎ (c ≡ b'+') → is_hex c || c == b'+' ≡ true
lead_back c (inl digit) = rw (is_hex-IsDigit c ∙ digit) refl
lead_back c (inr plus) = rw plus refl

is_hex_byte-IsByte : (s : Str) → is_hex_byte s ≡ true → IsByte s
is_hex_byte-IsByte [] h = absurd (cc)
is_hex_byte-IsByte (c ∷ []) h = absurd (cc)
is_hex_byte-IsByte (c ∷ d ∷ []) h =
    let (lead, digit) = &&-eq-true (is_hex c || c == b'+') (is_hex d) h in
    (c, d, refl, lead_lem c lead, sym (is_hex-IsDigit d) ∙ digit)
is_hex_byte-IsByte (c ∷ d ∷ e ∷ s) h = absurd (cc)

both : (a b : Bool) → a ≡ true → b ≡ true → a && b ≡ true
both a b p q = ground arith

IsByte-is_hex_byte : (s : Str) → IsByte s → is_hex_byte s ≡ true
IsByte-is_hex_byte s (c, d, same, lead, digit) =
    rw same (both (is_hex c || c == b'+') (is_hex d) (lead_back c lead) (is_hex-IsDigit d ∙ digit))

digit-free : (c : ℕ) → IsDigit c → c == b':' ≡ false
digit-free c h = let hex = is_hex-IsDigit c ∙ h in ground arith

lead-free : (c : ℕ) → IsDigit c ⊎ (c ≡ b'+') → c == b':' ≡ false
lead-free c (inl digit) = digit-free c digit
lead-free c (inr plus) = rw plus refl

IsByte-IsFree : (s : Str) → IsByte s → IsFree b':' s
IsByte-IsFree s (c, d, same, lead, digit) = rw same (rw (lead-free c lead, digit-free d digit) refl)

bytes-AllFree : (parts : List Str) → All IsByte parts → AllFree b':' parts
bytes-AllFree [] h = tt
bytes-AllFree (p ∷ ps) (b, h) = (IsByte-IsFree p b, bytes-AllFree ps h)

all-hex : (parts : List Str) → all is_hex_byte parts ≡ true → All IsByte parts
all-hex [] h = tt
all-hex (p ∷ ps) h =
    let (here, rest) = &&-eq-true (is_hex_byte p) (all is_hex_byte ps) h in
    (is_hex_byte-IsByte p here, all-hex ps rest)

hex-all : (parts : List Str) → All IsByte parts → all is_hex_byte parts ≡ true
hex-all [] h = refl
hex-all (p ∷ ps) (b, h) =
    both (is_hex_byte p) (all is_hex_byte ps) (IsByte-is_hex_byte p b) (hex-all ps h)

join-push_head :
    (c : ℕ) (parts : List Str) → join (codes ":") (push_head c parts) ≡ c ∷ join (codes ":") parts
unfolding join
join-push_head c [] = refl
join-push_head c (p ∷ []) = refl
join-push_head c (p ∷ q ∷ ps) = refl

-- There is at least one part.
split-filled : (s : Str) → (p : Str) × (ps : List Str) × (split b':' s ≡ p ∷ ps)
unfolding split
split-filled [] = ([], [], refl)
split-filled (c ∷ s) = elim (Bool-cases (c == b':')) [
  | inl sep ↦ ([], split b':' s, rw sep refl)
  | inr other ↦ let (p, ps, same) = split-filled s in (c ∷ p, ps, rw other (ap (push_head c) same))
]

join-after :
    (parts : List Str) (p : Str) (ps : List Str)
    → parts ≡ p ∷ ps
    → join (codes ":") ([] ∷ parts) ≡ b':' ∷ join (codes ":") parts
unfolding join
join-after parts p ps same = rw same refl

join-split : (s : Str) → join (codes ":") (split b':' s) ≡ s
unfolding join split
join-split [] = refl
join-split (c ∷ s) = elim (Bool-cases (c == b':')) [
  | inl sep ↦
      let (p, ps, same) = split-filled s in
      rw sep (
        join-after (split b':' s) p ps same
        ∙ ap (◌∷◌ b':') (join-split s)
        ∙ ap (λ d. d ∷ s) (sym (is_colon c sep)))
  | inr other ↦ rw other (join-push_head c (split b':' s) ∙ ap (◌∷◌ c) (join-split s))
]
  where
    is_colon : (c : ℕ) → c == b':' ≡ true → c ≡ b':'
    is_colon c h = ground arith

joined-is_mac :
    (parts : List Str)
    → length parts ≡ 6
    → All IsByte parts
    → is_mac (join (codes ":") parts) ≡ true
unfolding is_mac
joined-is_mac [] six bytes = absurd (omega arith)
joined-is_mac (p ∷ ps) six bytes =
    rw (split-join b':' p ps (bytes-AllFree (p ∷ ps) bytes)) (
      both (length (p ∷ ps) == 6) (all is_hex_byte (p ∷ ps)) (rw six refl) (hex-all (p ∷ ps) bytes))

-- A hardware address passes exactly if it is six bytes around colons.
pub is_mac-IsMac : (s : Str) → (is_mac s ≡ true) ↔ IsMac s
unfolding is_mac
is_mac-IsMac s = (
  λ h.
      let (six, hex) = &&-eq-true (length (split b':' s) == 6) (all is_hex_byte (split b':' s)) h in
      (split b':' s, sym (join-split s), ground arith, all-hex (split b':' s) hex),
  λ (parts, same, six, bytes).
      subst (λ t. is_mac t ≡ true) (sym same) (joined-is_mac parts six bytes),
)

module _ (parse_ip : Str → Option ℕ) (print_ip show : ℕ → Str) where
  abbrev pub IsAddress : Str → Type 0
  IsAddress s = (addr : ℕ) × (parse_ip s ≡ some addr)

  -- An address, or an address, a slash and a length of at most 32, within blanks.
  abbrev pub IsRange : Str → Type 0
  IsRange s =
      (IsFree b'/' (trim s) × IsAddress (trim s))
      ⊎ ((addr : Str) × (len : Str) × (trim s ≡ addr ++ b'/' ∷ len)
          × IsFree b'/' addr
          × IsAddress addr
          × (n : ℕ) × (parse_below 256 len ≡ some n)
          × (n ≤ 32))

  abbrev Rewritten : Str → Type 0
  Rewritten s = (c : Str) × (cidr parse_ip print_ip show s ≡ ok c)

  -- The end of the reading, of the parts of a range.
  abbrev finish : Str × ℕ → Result Str (ℕ × ℕ)
  finish parts = do
    addr ← or_fail (parse_ip parts.0) no_address
    if ltb 32 parts.1 then err bad_length else ok (addr, parts.1)

  or_fail-some : (o : Option ℕ) (e : Str) (n : ℕ) → or_fail o e ≡ ok n → o ≡ some n
  or_fail-some none e n h = absurd (cc)
  or_fail-some (some m) e n h = cc

  finish-inv :
      (parts : Str × ℕ) (range : ℕ × ℕ)
      → finish parts ≡ ok range
      → IsAddress parts.0 × (parts.1 ≤ 32)
  finish-inv parts range h =
      let (addr, found, rest) = >>=-eq-ok (or_fail (parse_ip parts.0) no_address) _ h in
      (
        (addr, or_fail-some (parse_ip parts.0) no_address addr found),
        short (ltb 32 parts.1) addr refl rest,
      )
    where
      short :
          (b : Bool) (addr : ℕ)
          → ltb 32 parts.1 ≡ b
          → (if b then err bad_length else ok (addr, parts.1)) ≡ ok range
          → parts.1 ≤ 32
      short true addr e q = absurd (cc)
      short false addr e q = ground arith

  finish-ok :
      (parts : Str × ℕ) (addr : ℕ)
      → parse_ip parts.0 ≡ some addr
      → parts.1 ≤ 32
      → finish parts ≡ ok (addr, parts.1)
  finish-ok parts addr found short = rw (found, fits parts.1 short) refl
    where
      fits : (n : ℕ) → n ≤ 32 → ltb 32 n ≡ false
      fits n h = ground arith

  -- What is read of a range goes into the rewritten one.
  Rewritten-parts :
      (s : Str)
      → Rewritten s
      → (parts : Str × ℕ) × (with_length parse_ip (split_once b'/' (trim s)) (trim s) ≡ ok parts)
        × IsAddress parts.0
        × (parts.1 ≤ 32)
  unfolding cidr read_range
  Rewritten-parts s (c, h) =
      let (range, found, rest) = >>=-eq-ok (read_range parse_ip s) _ h in
      let (parts, cut, rest) =
        >>=-eq-ok (with_length parse_ip (split_once b'/' (trim s)) (trim s)) _ found in
      let (address, short) = finish-inv parts range rest in (parts, cut, address, short)

  abbrev rewrite : ℕ × ℕ → Result Str Str
  rewrite range = ok (range_text print_ip show (bit_and range.0 (mask_of range.1)) range.1)

  parts-Rewritten :
      (s : Str) (parts : Str × ℕ)
      → with_length parse_ip (split_once b'/' (trim s)) (trim s) ≡ ok parts
      → IsAddress parts.0
      → parts.1 ≤ 32
      → Rewritten s
  unfolding cidr read_range
  parts-Rewritten s parts cut (addr, found) short = (
    range_text print_ip show (bit_and addr (mask_of parts.1)) parts.1,
    ap (λ r. r >>= rewrite) (ap (λ r. r >>= finish) cut ∙ finish-ok parts addr found short),
  )

  free : (s : Str) → split_once b'/' s ≡ none → IsFree b'/' s
  unfolding split_once
  free [] h = refl
  free (c ∷ s) h = ground (arith, free s)

  abbrev parted : Str × ℕ → Result Str (Str × ℕ)
  parted = ok

  parted_injective : (a b : Str × ℕ) → parted a ≡ parted b → a ≡ b
  parted_injective a b e = cc

  -- A range is rewritten exactly if it is one.
  pub cidr-IsRange : (s : Str) → ((c : Str) × (cidr parse_ip print_ip show s ≡ ok c)) ↔ IsRange s
  unfolding with_length
  cidr-IsRange s = (
    λ h.
        let (parts, cut, address, short) = Rewritten-parts s h in
        read (split_once b'/' (trim s)) refl parts cut address short,
    written,
  )
    where
      read :
          (o : Option (Str × Str))
          → split_once b'/' (trim s) ≡ o
          → (parts : Str × ℕ) → with_length parse_ip o (trim s) ≡ ok parts
          → IsAddress parts.0
          → parts.1 ≤ 32
          → IsRange s
      read none is_o parts cut address short = inl (
        free (trim s) is_o,
        subst (λ p. IsAddress p.0) (sym (parted_injective (trim s, 32) parts cut)) address,
      )
      read (some (addr, len)) is_o parts cut address short =
          let (n, found, made) = >>=-eq-ok (or_fail (parse_below 256 len) bad_length) _ cut in
          let same = sym (parted_injective (addr, n) parts made) in
          let (whole, before) = split_once_sound b'/' (trim s) addr len is_o in
          inr (
            addr,
            len,
            whole,
            before,
            subst (λ p. IsAddress p.0) same address,
            n,
            or_fail-some (parse_below 256 len) bad_length n found,
            subst (λ p. p.1 ≤ 32) same short,
          )

      written : IsRange s → Rewritten s
      written (inl (bare, address)) =
          parts-Rewritten s (trim s, 32)
            (ap (λ o. with_length parse_ip o (trim s)) (split_once_of_IsFree b'/' (trim s) bare))
            address (omega arith)
      written (inr (addr, len, whole, before, address, n, number, short)) =
          parts-Rewritten s (addr, n)
            (ap (λ o. with_length parse_ip o (trim s))
                (ap (split_once b'/') whole ∙ split_once-append b'/' addr len before)
              ∙ ap (λ o. or_fail o bad_length >>= (λ m. parted (addr, m))) number)
            address short
