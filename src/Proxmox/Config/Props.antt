-- ===== src/Proxmox/Config/Props.antt =====
-- Property strings: a leading bare value and `key=value` pairs.
use kubevirt_webgui.Base.{
  ℕ, ◌^◌, Bool, true, false, ◌||◌, List, [], ◌∷◌, map, Option, none, some, Str, codes, str_eq,
  is_empty, is_alpha, split, split_once, trim, if◌then◌else◌, leb, ◌&&◌, ◌-◌,
}
use kubevirt_webgui.Base.Maps.{Table, no_rows, insert}

pub record Props : Type 0 where
  pub head : Option Str
  pub pairs : Table Str

abbrev pub no_props : Props
no_props = record { head = none; pairs = no_rows }

unfoldable pub read_pair : Bool → Str → Option (Str × Str) → Props → Props
unfolding insert trim
read_pair is_first part (some (k, v)) props = record props {
  pairs = insert (trim k) (trim v) props.pairs;
}
read_pair is_first part none props =
    if is_first
    then record props { head = some part }
    else record props { pairs = insert part [] props.pairs }

-- One part; the first may be the head.
unfoldable pub read_part : Bool → Str → Props → Props
unfolding read_pair trim split_once
read_part is_first raw props =
    let part = trim raw in
    if is_empty part then props else read_pair is_first part (split_once b'=' part) props

unfoldable pub read_parts : Bool → List Str → Props → Props
unfolding read_part
read_parts is_first [] props = props
read_parts is_first (part ∷ rest) props = read_parts false rest (read_part is_first part props)

unfoldable pub parse_props : Str → Props
unfolding read_parts split
parse_props value = read_parts true (split b',' value) no_props

abbrev pub is_on : Option Str → Bool
is_on none = false
is_on (some v) =
    str_eq v (codes "1")
    || str_eq v (codes "on")
    || str_eq v (codes "yes")
    || str_eq v (codes "true")

abbrev pub flag : Str → Props → Bool
flag key props = is_on (props.pairs key)

-- `get(key).unwrap_or(default)`.
abbrev pub or_else : Str → Option Str → Str
or_else default none = default
or_else default (some v) = v

abbrev pub has_value : Option Str → Bool
has_value none = false
has_value (some v) = true

-- Where the unit of a size begins.
abbrev pub number_and_unit : Str → Str × Str
number_and_unit [] = ([], [])
number_and_unit (c ∷ s) =
    let (number, unit) = number_and_unit s in if is_alpha c then ([], c ∷ s) else (c ∷ number, unit)

abbrev pub to_upper : Str → Str
to_upper = map (λ c. if leb b'a' c && leb c b'z' then c - 32 else c)

abbrev pub is_one_of : Str → List Str → Bool
is_one_of s [] = false
is_one_of s (t ∷ ts) = str_eq s t || is_one_of s ts

abbrev pub factor : Str → Option ℕ
factor unit =
    if is_one_of unit ([] ∷ codes "B" ∷ [])
    then some 1
    else if is_one_of unit (codes "K" ∷ codes "KB" ∷ codes "KIB" ∷ [])
    then some (2 ^ 10)
    else if is_one_of unit (codes "M" ∷ codes "MB" ∷ codes "MIB" ∷ [])
    then some (2 ^ 20)
    else if is_one_of unit (codes "G" ∷ codes "GB" ∷ codes "GIB" ∷ [])
    then some (2 ^ 30)
    else if is_one_of unit (codes "T" ∷ codes "TB" ∷ codes "TIB" ∷ [])
    then some (2 ^ 40)
    else none

-- `scaled text n` reads a floating-point number and rounds its product with `n` to a `u64`.
module _ (scaled : Str → ℕ → Option ℕ) where
  abbrev pub scaled_by : Str → Option ℕ → Option ℕ
  scaled_by number none = none
  scaled_by number (some n) = scaled number n

  unfoldable pub parse_size : Str → Option ℕ
  unfolding trim
  parse_size value =
      let (number, unit) = number_and_unit (trim value) in scaled_by number (factor (to_upper unit))
