-- ===== src/Netagent/Annotation/Canonical.antt =====
-- Ranges are canonical once they are rewritten.
use Prim.Native.Nat.{bit_and}
use kubevirt_webgui.Base.{
  ℕ, zero, suc, ◌*◌, ◌-◌, ◌/◌, ◌^◌, ◌≤◌, ◌<◌, ◌≡◌, refl, ap, sym, ◌∙◌, subst, Bool, true, false,
  Option, none, some, Str, ltb, trim, split_once, split_once-append, IsFree, arith, if◌then◌else◌,
  Result, ok, err, >>=-eq-ok, or_fail,
}
use kubevirt_webgui.Base.Numbers.{parse_below}
use kubevirt_webgui.Proxmox.Allow.{mask}
use kubevirt_webgui.Proxmox.Allow.Masks.{drop_bits, shift_up, masked, masks_32}
use kubevirt_webgui.Netagent.Annotation.{
  mask_of, bad_length, no_address, with_length, read_range, range_text, cidr,
}

-- What is documented of the printing and the reading of addresses and numbers.
pub record IsPrinting (parse_ip : Str → Option ℕ) (print_ip show : ℕ → Str) : Type 0 where
  pub slash_free : (addr : ℕ) → IsFree b'/' (print_ip addr)
  pub trimmed :
      (addr len : ℕ) → trim (range_text print_ip show addr len) ≡ range_text print_ip show addr len
  pub address : (addr : ℕ) → addr < 2 ^ 32 → parse_ip (print_ip addr) ≡ some addr
  pub small : (s : Str) (addr : ℕ) → parse_ip s ≡ some addr → addr < 2 ^ 32
  pub number : (n : ℕ) → n < 2 ^ 8 → parse_below 256 (show n) ≡ some n

drop_bits-shift_up : (k x : ℕ) → drop_bits k (shift_up k x) ≡ x
unfolding drop_bits
drop_bits-shift_up zero x = refl
drop_bits-shift_up (suc k) x = ap (drop_bits k) (half (shift_up k x)) ∙ drop_bits-shift_up k x
  where
    half : (m : ℕ) → m * 2 / 2 ≡ m
    half m = omega arith

shift_up-drop_bits-le : (k x : ℕ) → shift_up k (drop_bits k x) ≤ x
unfolding drop_bits
shift_up-drop_bits-le zero x = omega arith
shift_up-drop_bits-le (suc k) x = omega (arith, shift_up-drop_bits-le k (x / 2))

-- The first address of the range.
abbrev pub network_of : ℕ → ℕ → ℕ
network_of addr len = shift_up (32 - len) (drop_bits (32 - len) addr)

mask_of-network :
    (addr len : ℕ) → len ≤ 32 → addr < 2 ^ 32 → bit_and addr (mask_of len) ≡ network_of addr len
unfolding mask
mask_of-network addr len le h = masked 32 len addr masks_32 le h

network_of-twice : (addr len : ℕ) → network_of (network_of addr len) len ≡ network_of addr len
network_of-twice addr len =
    ap (shift_up (32 - len)) (drop_bits-shift_up (32 - len) (drop_bits (32 - len) addr))

module _ (parse_ip : Str → Option ℕ) (print_ip show : ℕ → Str)
    (p : IsPrinting parse_ip print_ip show) where
  abbrev is_range : ℕ × ℕ → Result Str (ℕ × ℕ)
  is_range = ok

  pair_injective : (a b : ℕ × ℕ) → is_range a ≡ is_range b → a ≡ b
  pair_injective a b e = cc

  abbrev is_text : Str → Result Str Str
  is_text = ok

  text_injective : (s t : Str) → is_text s ≡ is_text t → s ≡ t
  text_injective s t e = cc

  or_fail-some : (o : Option ℕ) (e : Str) (a : ℕ) → or_fail o e ≡ ok a → o ≡ some a
  or_fail-some none e a q = cc
  or_fail-some (some b) e a q = cc

  in_bounds :
      (range found : ℕ × ℕ)
      → (if ltb 32 range.1 then err bad_length else ok range) ≡ is_range found
      → (range.1 ≤ 32) × (range ≡ found)
  in_bounds range found e = go (ltb 32 range.1) refl e
    where
      go :
          (b : Bool)
          → ltb 32 range.1 ≡ b
          → (if b then err bad_length else ok range) ≡ is_range found
          → (range.1 ≤ 32) × (range ≡ found)
      go true is_b q = absurd (cc)
      go false is_b q = (ground arith, pair_injective range found q)

  read_range-ok :
      (text : Str) (addr len : ℕ)
      → read_range parse_ip text ≡ ok (addr, len)
      → (len ≤ 32) × (addr < 2 ^ 32)
  unfolding read_range
  read_range-ok text addr len e =
      let (parts, cut, e) =
        >>=-eq-ok (with_length parse_ip (split_once b'/' (trim text)) (trim text)) _ e in
      let (found, is_addr, e) = >>=-eq-ok (or_fail (parse_ip parts.0) no_address) _ e in
      let (le, same) = in_bounds (found, parts.1) (addr, len) e in
      (
        subst (λ q. q.1 ≤ 32) same le,
        subst (λ q. q.0 < 2 ^ 32) same
            (p.small parts.0 found (or_fail-some (parse_ip parts.0) no_address found is_addr)),
      )

  read_range-text :
      (addr len : ℕ)
      → addr < 2 ^ 32
      → len ≤ 32
      → read_range parse_ip (range_text print_ip show addr len) ≡ ok (addr, len)
  unfolding read_range with_length
  read_range-text addr len h le =
      rw
        (
          p.trimmed addr len,
          split_once-append b'/' (print_ip addr) (show len) (p.slash_free addr),
          p.number len (omega arith),
          p.address addr h,
        )
        (ground arith)

  network_of-lt : (addr len : ℕ) → addr < 2 ^ 32 → network_of addr len < 2 ^ 32
  network_of-lt addr len h = omega (arith, shift_up-drop_bits-le (32 - len) addr)

  cidr-text :
      (text : Str) (addr len : ℕ)
      → read_range parse_ip text ≡ ok (addr, len)
      → cidr parse_ip print_ip show text ≡ ok (range_text print_ip show (network_of addr len) len)
  unfolding cidr
  cidr-text text addr len e =
      let (le, h) = read_range-ok text addr len e in rw (e, mask_of-network addr len le h) refl

  -- A range that is rewritten reads as an address and a length of at most 32; it is written with the
  -- address without the bits beyond that length, and rewriting it once more changes nothing.
  pub cidr-canonical :
      (text c : Str)
      → cidr parse_ip print_ip show text ≡ ok c
      → (addr : ℕ) × (len : ℕ) × (read_range parse_ip text ≡ ok (addr, len))
        × (len ≤ 32)
        × (c ≡ range_text print_ip show (network_of addr len) len)
        × (cidr parse_ip print_ip show c ≡ ok c)
  unfolding cidr
  cidr-canonical text c e =
      let ((addr, len), is_read, _) = >>=-eq-ok (read_range parse_ip text) _ e in
      let (le, h) = read_range-ok text addr len is_read in
      let n = network_of addr len in
      let same =
        text_injective c (range_text print_ip show n len)
          (sym e ∙ cidr-text text addr len is_read) in
      let again =
        cidr-text (range_text print_ip show n len) n len
          (read_range-text n len (network_of-lt addr len h) le) in
      (
        addr,
        len,
        is_read,
        le,
        same,
        ap (cidr parse_ip print_ip show) same
            ∙ again
            ∙ ap (λ m. is_text (range_text print_ip show m len)) (network_of-twice addr len)
            ∙ ap is_text (sym same),
      )
