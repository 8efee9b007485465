-- ===== src/Proxmox/Config/Complete.antt =====
-- That no disk of a configuration is forgotten.
use mathlib.Core.List.{Perm, perm_middle}
use mathlib.Core.List.Perm
use kubevirt_webgui.Base.{
  ℕ, ◌≡◌, inl, inr, refl, ap, sym, ◌∙◌, Bool, true, false, ◌||◌, List, [], ◌∷◌, ◌++◌, append_assoc,
  append-nil, subst, Option, none, some, Str, codes, str_eq, is_empty, starts_with, contains,
  Bool-cases, if◌then◌else◌, has_char, split_once, arith,
}
use kubevirt_webgui.Base.Maps.{Table}
use kubevirt_webgui.Proxmox.Config.{Value, Config, text_of, Disk}
use kubevirt_webgui.Proxmox.Config.Props.{Props, parse_props, or_else}
use kubevirt_webgui.Proxmox.Config.Keys.{is_disk_key, is_before, sort_keys, sort_onto, place_key}
use kubevirt_webgui.Proxmox.Config.Entries.{
  is_disk, is_drive, is_listed, is_disk-same, is_copied, is_offered, offer, is_offered-same,
}
use kubevirt_webgui.Proxmox.Config.Devices.{
  Parts, no_parts, add_disk, new_disk, is_cdrom, with_volume, read_disk, read_value, read_text,
  read_key, read_keys,
}
use kubevirt_webgui.Proxmox.Config.Vm.{devices, parse}
use kubevirt_webgui.Proxmox.Config.Disks.{read_device-disks, leave_rest-disks}

-- The key that a disk leads to, and whether the disk is offered for copying.
abbrev pub entry : Bool → Str → Bool → List (Str × Bool)
entry true key offered = (key, offered) ∷ []
entry false key offered = []

abbrev pub keys : List Disk → List (Str × Bool)
keys [] = []
keys (d ∷ ds) = (d.key, d.importable) ∷ keys ds

-- The disks of a configuration.
abbrev pub listed : Config → List (Str × Bool)
listed [] = []
listed (row ∷ rest) = entry (is_disk row) row.0 (is_offered row.1) ++ listed rest

abbrev is_volume : Option (Str × Str) → Bool
is_volume none = false
is_volume (some parts) = true

is_volume-has_char : (s : Str) → is_volume (split_once b':' s) ≡ has_char b':' s
unfolding split_once
is_volume-has_char [] = refl
is_volume-has_char (c ∷ s) = ground (arith, is_volume-has_char s)

keys-append : (xs ys : List Disk) → keys (xs ++ ys) ≡ keys xs ++ keys ys
keys-append [] ys = refl
keys-append (d ∷ ds) ys = ap (λ t. (d.key, d.importable) ∷ t) (keys-append ds ys)

with_volume-key :
    (sizes : Table ℕ) (head : Str) (o : Option (Str × Str)) (d : Disk)
    → d.importable ≡ false
    → keys (with_volume sizes head o d ∷ []) ≡ (d.key, is_volume o) ∷ []
with_volume-key sizes head none d h = ap (λ b. (d.key, b) ∷ []) h
with_volume-key sizes head (some (storage, volume)) d h = refl

read_disk-keys :
    (sizes : Table ℕ) (props : Props) (d : Disk) (p : Parts)
    → d.media ≡ or_else (codes "disk") (props.pairs (codes "media"))
    → d.importable ≡ false
    → keys (read_disk sizes (or_else [] props.head) d p).disks
      ≡ keys p.disks ++ entry (is_drive props) d.key (is_copied (or_else [] props.head))
unfolding read_disk
read_disk-keys sizes props d p m fresh =
    let head = or_else [] props.head in
    elim (Bool-cases (contains (codes "cloudinit") head)) [
      | inl c ↦ rw c (sym (append-nil _))
      | inr c ↦ rw c (elim (Bool-cases (str_eq head (codes "none") || is_empty head)) [
        | inl gone ↦ rw (gone, sym m) (drive (is_cdrom d))
        | inr kept ↦ rw kept (elim (Bool-cases (starts_with (codes "/") head)) [
          | inl host ↦
              rw host (keys-append p.disks _ ∙ ap (λ b. keys p.disks ++ ((d.key, b) ∷ [])) fresh)
          | inr bare ↦ rw bare (
              keys-append p.disks _
              ∙ ap (λ ks. keys p.disks ++ ks)
                  (with_volume-key sizes head (split_once b':' head) d fresh)
              ∙ ap (λ b. keys p.disks ++ ((d.key, b) ∷ [])) (is_volume-has_char head))
        ])
      ])
    ]
  where
    drive :
        (b : Bool)
        → keys
            (if b
              then add_disk (record d { note = some (codes "empty CD-ROM drive") }) p
              else p).disks
          ≡ keys p.disks ++ entry b d.key false
    drive true = keys-append p.disks _ ∙ ap (λ c. keys p.disks ++ ((d.key, c) ∷ [])) fresh
    drive false = sym (append-nil _)

read_value-keys :
    (scaled : Str → ℕ → Option ℕ) (sizes : Table ℕ) (key value : Str) (bus : Option Str) (p : Parts)
    → keys (read_value scaled sizes key value bus p).disks
      ≡ keys p.disks ++ entry (is_listed (some value) bus) key (offer (some value))
unfolding read_value new_disk
read_value-keys scaled sizes key value none p =
    ap keys (read_device-disks key value p) ∙ sym (append-nil _)
read_value-keys scaled sizes key value (some bus) p =
    read_disk-keys sizes (parse_props value) (new_disk scaled key bus (parse_props value)) p refl
      refl

read_text-keys :
    (scaled : Str → ℕ → Option ℕ) (sizes : Table ℕ) (key : Str) (o : Option Str) (p : Parts)
    → keys (read_text scaled sizes key o p).disks
      ≡ keys p.disks ++ entry (is_listed o (is_disk_key key)) key (offer o)
unfolding read_text
read_text-keys scaled sizes key none p = sym (append-nil _)
read_text-keys scaled sizes key (some v) p = read_value-keys scaled sizes key v (is_disk_key key) p

read_keys-keys :
    (scaled : Str → ℕ → Option ℕ) (sizes : Table ℕ) (config : Config) (p : Parts)
    → keys (read_keys scaled sizes config p).disks ≡ keys p.disks ++ listed config
unfolding read_keys read_key
read_keys-keys scaled sizes [] p = sym (append-nil _)
read_keys-keys scaled sizes (row ∷ rest) p =
    read_keys-keys scaled sizes rest (read_key scaled sizes row p)
    ∙ ap (λ ks. ks ++ listed rest) (read_text-keys scaled sizes row.0 (text_of row.1) p)
    ∙ ap (λ b. (keys p.disks ++ entry b row.0 (offer (text_of row.1))) ++ listed rest)
        (is_disk-same row.0 row.1)
    ∙ ap (λ b. (keys p.disks ++ entry (is_disk row) row.0 b) ++ listed rest) (is_offered-same row.1)
    ∙ append_assoc (keys p.disks) (entry (is_disk row) row.0 (is_offered row.1)) (listed rest)

place_key-perm : (row : Str × Value) (rows : Config) → Perm (place_key row rows) (row ∷ rows)
unfolding place_key
place_key-perm row [] = Perm.rfl
place_key-perm row (first ∷ rest) = elim (Bool-cases (is_before row.0 first.0)) [
  | inl before ↦ rw before Perm.rfl
  | inr after ↦
      rw after (Perm.trans (Perm.cons first (place_key-perm row rest)) (Perm.swap row first rest))
]

sort_onto-perm : (sorted rows : Config) → Perm (sort_onto sorted rows) (rows ++ sorted)
unfolding sort_onto
sort_onto-perm sorted [] = Perm.rfl
sort_onto-perm sorted (row ∷ rest) =
    Perm.trans (sort_onto-perm (place_key row sorted) rest)
      (Perm.trans (Perm.append_left rest (place_key-perm row sorted)) (perm_middle rest sorted))

-- Whatever the configuration, the disks that `parse` gives have the keys of the entries that are
-- disks, each once and in the order of a rearrangement of the entries. A disk's entry has `ide`, `sata`,
-- `virtio` or `scsi` and a number of 32 bits as its key, and a text as its value; its volume, which is
-- what stands before the first comma if that is no setting, is of no cloud-init drive, and it is there
-- and not `none`, unless the last `media` is `cdrom`. A disk is offered for copying exactly if its volume
-- has a colon and does not begin with a slash.
pub parse_complete :
    (scaled : Str → ℕ → Option ℕ) (decode : Str → Option Str) (show : ℕ → Str) (sizes : Table ℕ)
    → (config : Config)
    → (keys (parse scaled decode show sizes config).disks ≡ listed (sort_keys config))
      × Perm (sort_keys config) config
unfolding parse devices sort_keys
parse_complete scaled decode show sizes config = (
  ap keys (leave_rest-disks show config _)
      ∙ read_keys-keys scaled sizes (sort_keys config) no_parts,
  subst (λ rows. Perm (sort_keys config) rows) (append-nil config) (sort_onto-perm [] config),
)
