-- ===== src/Netagent/Annotation.antt =====
-- The annotation that asks for the NAT of an interface, and its checks (src/netagent/plan.rs). Reading the
-- list of entries, and reading and printing addresses and numbers, are arguments.
use Prim.Native.Nat.{bit_and}
use kubevirt_webgui.Base.{
  ℕ, ◌*◌, ◌-◌, ◌%◌, ◌^◌, Bool, true, false, not, ◌&&◌, ◌||◌, ◌==◌, List, [], ◌∷◌, ◌++◌, all, Option,
  none, some, Str, codes, str_eq, is_empty, is_digit, byte_len, trim, split, split_once, ltb, leb,
  length, if◌then◌else◌, Result, ok, err, ◌>>=◌, or_fail,
}
use kubevirt_webgui.Base.Numbers.{parse_below}
pub mod Canonical
pub mod Formats
pub mod Checked
mod Tests

-- One bridged interface's setting.
pub record Entry : Type 0 where
  pub interface : Str
  pub clients : List Str
  pub guest_ip : Option Str
  pub snat_to : Str
  pub gateway_mac : Option Str
  pub enabled : Bool

abbrev pub is_hex : ℕ → Bool
is_hex c = is_digit c || leb b'a' c && leb c b'f' || leb b'A' c && leb c b'F'

-- Two bytes that `u8::from_str_radix` reads, which takes a plus sign too.
abbrev pub is_hex_byte : Str → Bool
is_hex_byte (c ∷ d ∷ []) = (is_hex c || c == b'+') && is_hex d
is_hex_byte _ = false

unfoldable pub is_mac : Str → Bool
unfolding split
is_mac text = length (split b':' text) == 6 && all is_hex_byte (split b':' text)

abbrev pub mask_of : ℕ → ℕ
mask_of len = if len == 0 then 0 else ((2 ^ 32 - 1) * 2 ^ (32 - len)) % 2 ^ 32

-- Everything but what is `auto`.
unfoldable pub unless_auto : Option Str → Option Str
unfolding str_eq
unless_auto none = none
unless_auto (some s) = if str_eq s (codes "auto") then none else some s

abbrev pub bad_length : Str
bad_length = codes "bad prefix length"

abbrev pub no_address : Str
no_address = codes "not an IPv4 address"

abbrev pub range_text : (ℕ → Str) → (ℕ → Str) → ℕ → ℕ → Str
range_text print_ip show addr len = print_ip addr ++ b'/' ∷ show len

module _ (parse_ip : Str → Option ℕ) where
  unfoldable pub with_length : Option (Str × Str) → Str → Result Str (Str × ℕ)
  unfolding parse_below
  with_length none text = ok (text, 32)
  with_length (some (a, l)) text = do len ← or_fail (parse_below 256 l) bad_length; ok (a, len)

  -- The address and the length of a range.
  unfoldable pub read_range : Str → Result Str (ℕ × ℕ)
  unfolding with_length trim split_once
  read_range text = do
    parts ← with_length (split_once b'/' (trim text)) (trim text)
    addr ← or_fail (parse_ip parts.0) no_address
    if ltb 32 parts.1 then err bad_length else ok (addr, parts.1)

  module _ (print_ip : ℕ → Str) (show : ℕ → Str) where
    -- A range as iptables and ip print it back.
    unfoldable pub cidr : Str → Result Str Str
    unfolding read_range
    cidr text = do
      range ← read_range text
      ok (range_text print_ip show (bit_and range.0 (mask_of range.1)) range.1)

    abbrev pub with_range :
        Str → Str → Result Str Str → Result Str (Unit {0}) → Result Str (Unit {0})
    with_range interface client (ok c) rest = rest
    with_range interface client (err e) rest =
        err (interface ++ (codes ": client range " ++ (client ++ (codes ": " ++ e))))

    unfoldable pub check_clients : Str → List Str → Result Str (Unit {0})
    unfolding cidr
    check_clients interface [] = ok tt
    check_clients interface (client ∷ rest) =
        with_range interface client (cidr client) (check_clients interface rest)

    abbrev pub if_found : Option ℕ → Str → Result Str (Unit {0})
    if_found (some addr) message = ok tt
    if_found none message = err message

    abbrev pub check_address : Option Str → Str → Result Str (Unit {0})
    check_address none message = ok tt
    check_address (some ip) message = if_found (parse_ip ip) message

    unfoldable pub check_mac : Option Str → Str → Result Str (Unit {0})
    unfolding is_mac
    check_mac none message = ok tt
    check_mac (some mac) message = if is_mac mac then ok tt else err message

    abbrev pub or_empty : Option Str → Str
    or_empty none = []
    or_empty (some s) = s

    unfoldable pub check_interface : Str → Result Str (Unit {0})
    unfolding trim
    check_interface name =
        if is_empty (trim name) then err (codes "an entry has no interface") else ok tt

    abbrev pub bad_snat : Entry → Str
    bad_snat e =
        e.interface ++ (codes ": snatTo " ++ (e.snat_to ++ codes " is not an IPv4 address"))

    abbrev pub bad_guest : Entry → Str
    bad_guest e =
        e.interface
        ++ (codes ": guestIP " ++ (or_empty e.guest_ip ++ codes " is not an IPv4 address"))

    abbrev pub bad_mac : Entry → Str
    bad_mac e =
        e.interface
        ++ (codes ": gatewayMAC " ++ (or_empty e.gateway_mac ++ codes " is not a MAC address"))

    unfoldable pub check_entry : Entry → Result Str (Unit {0})
    unfolding check_clients check_mac unless_auto check_interface
    check_entry e = do
      _ ← check_interface e.interface
      _ ← check_clients e.interface e.clients
      _ ← check_address (some e.snat_to) (bad_snat e)
      _ ← check_address (unless_auto e.guest_ip) (bad_guest e)
      check_mac (unless_auto e.gateway_mac) (bad_mac e)

    unfoldable pub check_all : List Entry → Result Str (Unit {0})
    unfolding check_entry
    check_all [] = ok tt
    check_all (e ∷ rest) = do _ ← check_entry e; check_all rest

    unfoldable pub checked : Result Str (List Entry) → Result Str (List Entry)
    unfolding check_all
    checked (err e) = err (codes "kubevirt-webgui/offsubnet-nat is not a list of entries: " ++ e)
    checked (ok entries) = check_all entries >>= (λ _. ok entries)

    -- `read` is YAML or JSON.
    unfoldable pub parse : (Str → Result Str (List Entry)) → Str → Result Str (List Entry)
    unfolding checked
    parse read annotation = checked (read annotation)
