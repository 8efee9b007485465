-- ===== src/Proxmox/Config/Keys.antt =====
-- The keys of devices, and the order in which they are read.
use Prim.Native.Nat.{compare, Ordering}
use kubevirt_webgui.Base.{
  ℕ, Bool, true, false, List, [], ◌∷◌, Option, none, some, Str, codes, str_eq, is_alpha, is_digit,
  starts_with, strip_prefix, trim_start, trim_end, ◌||◌, if◌then◌else◌,
}
use kubevirt_webgui.Base.Sets.{str_cmp}
use kubevirt_webgui.Proxmox.Config.{Value, Config, parse_u32}

abbrev pub or_zero : Option ℕ → ℕ
or_zero none = 0
or_zero (some n) = n

-- `scsi2` before `scsi10`: by what stands before the digits at the end, then by the number.
abbrev stem : Str → Str
unfolding trim_end
stem = trim_end is_digit

abbrev key_index : Str → ℕ
unfolding trim_start parse_u32
key_index key = or_zero (parse_u32 (trim_start is_alpha key))

unfoldable pub is_before : Str → Str → Bool
unfolding stem key_index str_cmp
is_before a b = elim (str_cmp (stem a) (stem b)) [
  | Ordering.lt ↦ true
  | Ordering.gt ↦ false
  | Ordering.eq ↦ elim (compare (key_index a) (key_index b)) [ Ordering.lt ↦ true | _ ↦ false ]
]

-- A stable sort: a key goes before the first that it is less than.
unfoldable pub place_key : Str × Value → Config → Config
unfolding is_before
place_key row [] = row ∷ []
place_key row (first ∷ rest) =
    let later = place_key row rest in
    if is_before row.0 first.0 then row ∷ first ∷ rest else first ∷ later

unfoldable pub sort_onto : Config → Config → Config
unfolding place_key
sort_onto sorted [] = sorted
sort_onto sorted (row ∷ rest) = sort_onto (place_key row sorted) rest

unfoldable pub sort_keys : Config → Config
unfolding sort_onto
sort_keys = sort_onto []

unfoldable pub indexed : Str → Str → Option ℕ
unfolding parse_u32
indexed prefix key = elim (strip_prefix prefix key) [ none ↦ none | some rest ↦ parse_u32 rest ]

abbrev pub has_index : Option ℕ → Bool
has_index none = false
has_index (some i) = true

abbrev pub buses : List Str
buses = codes "scsi" ∷ codes "virtio" ∷ codes "sata" ∷ codes "ide" ∷ []

unfoldable pub first_bus : Str → List Str → Option Str
unfolding indexed
first_bus key [] = none
first_bus key (bus ∷ rest) = elim (indexed bus key) [
  | none ↦ first_bus key rest
  | some i ↦ some bus
]

-- The bus of a disk's key.
unfoldable pub is_disk_key : Str → Option Str
unfolding first_bus
is_disk_key key = first_bus key buses

unfoldable pub is_windows : Str → Bool
is_windows ostype =
    starts_with (codes "win") ostype
    || starts_with (codes "w2k") ostype
    || str_eq ostype (codes "wxp")
    || str_eq ostype (codes "wvista")
