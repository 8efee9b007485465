-- ===== src/Proxmox/Config/Entries.antt =====
-- Which entries of a configuration are disks, told from their texts.
use kubevirt_webgui.Base.{
  ℕ, has_char, ◌≡◌, refl, ap, sym, ◌∙◌, inl, inr, Bool, true, false, not, ◌&&◌, ◌||◌, List, [], ◌∷◌,
  Option, none, some, Str, codes, str_eq, is_empty, split, split_once, strip_prefix, trim, contains,
  Bool-cases, arith, ◌^◌, if◌then◌else◌, starts_with,
}
use kubevirt_webgui.Base.Maps.{insert}
use kubevirt_webgui.Base.Numbers.{parse_below}
use kubevirt_webgui.Proxmox.Config.{
  Value, null, array, object, bool, number, string, text_of, if_filled, parse_u32,
}
use kubevirt_webgui.Proxmox.Config.Props.{
  Props, no_props, parse_props, read_parts, read_part, read_pair, or_else,
}
use kubevirt_webgui.Proxmox.Config.Keys.{is_disk_key, indexed, first_bus}

-- The text of a value, which an empty one and what is no scalar lack.
abbrev pub written : Value → Str
written (string s) = s
written (number n) = n
written (bool true) = codes "1"
written (bool false) = codes "0"
written _ = []

-- A number that fits 32 bits after the name of a bus.
abbrev pub is_number : Option ℕ → Bool
is_number none = false
is_number (some n) = true

abbrev pub is_numbered : Option Str → Bool
unfolding parse_below
is_numbered none = false
is_numbered (some rest) = is_number (parse_below (2 ^ 32) rest)

abbrev pub is_bus_key : Str → Bool
is_bus_key key =
    is_numbered (strip_prefix (codes "ide") key)
    || is_numbered (strip_prefix (codes "sata") key)
    || is_numbered (strip_prefix (codes "virtio") key)
    || is_numbered (strip_prefix (codes "scsi") key)

-- What stands before the first comma, where it is no setting.
abbrev pub volume_or : Str → Option (Str × Str) → Str
volume_or part none = part
volume_or part (some setting) = []

abbrev pub volume_in : List Str → Str
volume_in [] = []
volume_in (first ∷ rest) = volume_or (trim first) (split_once b'=' (trim first))

-- What a part sets a key to.
abbrev pub set_by : Bool → Str → Option (Str × Str) → Str → Option Str → Option Str
set_by is_first key (some (k, v)) part old = if str_eq (trim k) key then some (trim v) else old
set_by is_first key none part old =
    if not is_first && not (is_empty part) && str_eq part key then some [] else old

-- What the last part that sets a key sets it to.
abbrev pub last_set : Bool → Str → List Str → Option Str → Option Str
last_set is_first key [] old = old
last_set is_first key (part ∷ rest) old =
    last_set false key rest (set_by is_first key (split_once b'=' (trim part)) (trim part) old)

abbrev pub is_cdrom_drive : Option Str → Bool
is_cdrom_drive none = false
is_cdrom_drive (some media) = str_eq media (codes "cdrom")

-- A value that is a disk's: no cloud-init drive, and a volume or a CD-ROM drive.
abbrev pub are_drive : List Str → Bool
unfolding split_once
are_drive parts =
    not (contains (codes "cloudinit") (volume_in parts))
    && (not (str_eq (volume_in parts) (codes "none") || is_empty (volume_in parts))
        || is_cdrom_drive (last_set true (codes "media") parts none))

abbrev pub is_drive_text : Str → Bool
unfolding split
is_drive_text text = are_drive (split b',' text)

abbrev pub is_disk : Str × Value → Bool
is_disk (key, value) =
    not (is_empty (written value)) && is_bus_key key && is_drive_text (written value)

-- A volume that can be copied: a name with a colon, which is no path of the host.
abbrev pub is_copied : Str → Bool
is_copied volume =
    not (str_eq volume (codes "none") || is_empty volume)
    && (not (starts_with (codes "/") volume) && has_char b':' volume)

abbrev pub is_offered : Value → Bool
unfolding split split_once
is_offered value = is_copied (volume_in (split b',' (written value)))

-- The same in the reader's own terms.
abbrev pub offer : Option Str → Bool
unfolding parse_props
offer none = false
offer (some v) = is_copied (or_else [] (parse_props v).head)

abbrev pub is_drive : Props → Bool
is_drive props =
    let head = or_else [] props.head in
    not (contains (codes "cloudinit") head)
    && (not (str_eq head (codes "none") || is_empty head)
        || str_eq (or_else (codes "disk") (props.pairs (codes "media"))) (codes "cdrom"))

abbrev pub is_listed : Option Str → Option Str → Bool
unfolding parse_props
is_listed none bus = false
is_listed (some v) none = false
is_listed (some v) (some bus) = is_drive (parse_props v)

read_pair-head :
    (part : Str) (o : Option (Str × Str)) (props : Props)
    → (read_pair false part o props).head ≡ props.head
unfolding read_pair
read_pair-head part none props = refl
read_pair-head part (some (k, v)) props = refl

read_part-head : (raw : Str) (props : Props) → (read_part false raw props).head ≡ props.head
unfolding read_part
read_part-head raw props = elim (Bool-cases (is_empty (trim raw))) [
  | inl blank ↦ rw blank refl
  | inr filled ↦ rw filled (read_pair-head (trim raw) (split_once b'=' (trim raw)) props)
]

read_parts-head :
    (parts : List Str) (props : Props) → (read_parts false parts props).head ≡ props.head
unfolding read_parts
read_parts-head [] props = refl
read_parts-head (part ∷ rest) props =
    read_parts-head rest (read_part false part props) ∙ read_part-head part props

read_pair-pairs :
    (is_first : Bool) (key part : Str) (o : Option (Str × Str)) (props : Props)
    → is_empty part ≡ false
    → (read_pair is_first part o props).pairs key ≡ set_by is_first key o part (props.pairs key)
unfolding read_pair insert
read_pair-pairs is_first key part (some (k, v)) props h = refl
read_pair-pairs true key part none props h = refl
read_pair-pairs false key part none props h = rw h refl

-- A blank part sets no key that has a name.
set_by-blank :
    (is_first : Bool) (key part : Str) (old : Option Str)
    → is_empty part ≡ true
    → set_by is_first key (split_once b'=' part) part old ≡ old
unfolding split_once
set_by-blank true key [] old h = refl
set_by-blank false key [] old h = refl
set_by-blank is_first key (c ∷ s) old h = absurd (cc)

read_part-pairs :
    (is_first : Bool) (key raw : Str) (props : Props)
    → (read_part is_first raw props).pairs key
      ≡ set_by is_first key (split_once b'=' (trim raw)) (trim raw) (props.pairs key)
unfolding read_part
read_part-pairs is_first key raw props = elim (Bool-cases (is_empty (trim raw))) [
  | inl blank ↦ rw blank (sym (set_by-blank is_first key (trim raw) (props.pairs key) blank))
  | inr filled ↦
      rw filled (read_pair-pairs is_first key (trim raw) (split_once b'=' (trim raw)) props filled)
]

read_parts-pairs :
    (is_first : Bool) (key : Str) (parts : List Str) (props : Props)
    → (read_parts is_first parts props).pairs key ≡ last_set is_first key parts (props.pairs key)
unfolding read_parts
read_parts-pairs is_first key [] props = refl
read_parts-pairs is_first key (part ∷ rest) props =
    read_parts-pairs false key rest (read_part is_first part props)
    ∙ ap (last_set false key rest) (read_part-pairs is_first key part props)

read_pair-volume :
    (part : Str) (o : Option (Str × Str))
    → or_else [] (read_pair true part o no_props).head ≡ volume_or part o
unfolding read_pair
read_pair-volume part none = refl
read_pair-volume part (some (k, v)) = refl

part-volume :
    (part : Str)
    → or_else []
        (if is_empty part
          then no_props
          else read_pair true part (split_once b'=' part) no_props).head
      ≡ volume_or part (split_once b'=' part)
unfolding split_once
part-volume [] = refl
part-volume (c ∷ s) = read_pair-volume (c ∷ s) (split_once b'=' (c ∷ s))

read_parts-volume :
    (parts : List Str) → or_else [] (read_parts true parts no_props).head ≡ volume_in parts
unfolding read_parts read_part
read_parts-volume [] = refl
read_parts-volume (first ∷ rest) =
    ap (or_else []) (read_parts-head rest (read_part true first no_props))
    ∙ part-volume (trim first)

media_lem : (o : Option Str) → str_eq (or_else (codes "disk") o) (codes "cdrom") ≡ is_cdrom_drive o
unfolding str_eq
media_lem none = refl
media_lem (some media) = refl

is_drive-same : (text : Str) → is_drive (parse_props text) ≡ is_drive_text text
unfolding parse_props
is_drive-same text =
    rw
      (
        read_parts-volume (split b',' text),
        read_parts-pairs true (codes "media") (split b',' text) no_props,
        media_lem (last_set true (codes "media") (split b',' text) none),
      )
      refl

abbrev has_bus : Option Str → Bool
has_bus none = false
has_bus (some bus) = true

indexed-same : (bus key : Str) → is_number (indexed bus key) ≡ is_numbered (strip_prefix bus key)
unfolding indexed
indexed-same bus key = go (strip_prefix bus key)
  where
    go :
        (o : Option Str)
        → is_number (elim o [ none ↦ none | some rest ↦ parse_u32 rest ]) ≡ is_numbered o
    go none = refl
    go (some rest) = refl

first_bus-cons :
    (key bus : Str) (rest : List Str)
    → has_bus (first_bus key (bus ∷ rest))
      ≡ is_numbered (strip_prefix bus key) || has_bus (first_bus key rest)
unfolding first_bus
first_bus-cons key bus rest =
    go (indexed bus key) ∙ ap (λ b. b || has_bus (first_bus key rest)) (indexed-same bus key)
  where
    go :
        (o : Option ℕ)
        → has_bus (elim o [ none ↦ first_bus key rest | some i ↦ some bus ])
          ≡ is_number o || has_bus (first_bus key rest)
    go none = refl
    go (some i) = refl

turn : (a b c d : Bool) → (a || (b || (c || (d || false)))) ≡ (d || c || b || a)
turn a b c d = ground arith

is_disk_key-same : (key : Str) → has_bus (is_disk_key key) ≡ is_bus_key key
unfolding is_disk_key first_bus
is_disk_key-same key =
    rw
      (
        first_bus-cons key (codes "scsi") (codes "virtio" ∷ codes "sata" ∷ codes "ide" ∷ []),
        first_bus-cons key (codes "virtio") (codes "sata" ∷ codes "ide" ∷ []),
        first_bus-cons key (codes "sata") (codes "ide" ∷ []),
        first_bus-cons key (codes "ide") [],
      )
      (turn (is_numbered (strip_prefix (codes "scsi") key))
        (is_numbered (strip_prefix (codes "virtio") key))
        (is_numbered (strip_prefix (codes "sata") key))
        (is_numbered (strip_prefix (codes "ide") key)))

is_listed-same :
    (text : Str) (bus : Option Str)
    → is_listed (if_filled text) bus ≡ not (is_empty text) && has_bus bus && is_drive_text text
unfolding is_listed
is_listed-same [] bus = refl
is_listed-same (c ∷ s) none = refl
is_listed-same (c ∷ s) (some bus) = is_drive-same (c ∷ s)

text_of-written :
    (value : Value) (bus : Option Str)
    → is_listed (text_of value) bus ≡ is_listed (if_filled (written value)) bus
text_of-written (string s) bus = refl
text_of-written (number n) bus = refl
text_of-written (bool true) bus = refl
text_of-written (bool false) bus = refl
text_of-written null bus = refl
text_of-written array bus = refl
text_of-written object bus = refl

-- The reader takes for a disk what is one.
pub is_disk-same :
    (key : Str) (value : Value) → is_listed (text_of value) (is_disk_key key) ≡ is_disk (key, value)
is_disk-same key value =
    text_of-written value (is_disk_key key)
    ∙ is_listed-same (written value) (is_disk_key key)
    ∙ ap (λ b. not (is_empty (written value)) && b && is_drive_text (written value))
        (is_disk_key-same key)

filled-offer : (text : Str) → offer (if_filled text) ≡ is_copied (volume_in (split b',' text))
unfolding offer parse_props split split_once trim str_eq
filled-offer [] = refl
filled-offer (c ∷ s) = ap is_copied (read_parts-volume (split b',' (c ∷ s)))

-- The reader offers what can be copied.
pub is_offered-same : (value : Value) → offer (text_of value) ≡ is_offered value
unfolding is_offered
is_offered-same (string s) = filled-offer s
is_offered-same (number n) = filled-offer n
is_offered-same (bool true) = filled-offer (codes "1")
is_offered-same (bool false) = filled-offer (codes "0")
is_offered-same null = filled-offer []
is_offered-same array = filled-offer []
is_offered-same object = filled-offer []
