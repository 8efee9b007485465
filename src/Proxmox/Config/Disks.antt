-- ===== src/Proxmox/Config/Disks.antt =====
-- Which disks can be copied, and that no disk is forgotten.
use kubevirt_webgui.Base.{
  ℕ, zero, suc, ◌≡◌, ◌⊎◌, inl, inr, refl, sym, subst, ◌∙◌, Bool, true, false, ◌||◌, List, [], ◌∷◌,
  All, All-append, Option, none, some, Str, codes, str_eq, is_empty, starts_with, contains,
  split_once, Bool-cases, Option-cases, if◌then◌else◌,
}
use kubevirt_webgui.Base.Maps.{Table}
use kubevirt_webgui.Proxmox.Config.{Config, text_of, Disk}
use kubevirt_webgui.Proxmox.Config.Props.{Props, parse_props, or_else}
use kubevirt_webgui.Proxmox.Config.Keys.{is_disk_key, sort_keys}
use kubevirt_webgui.Proxmox.Config.Devices.{
  Parts, no_parts, rate_limit, add_disk, new_disk, is_cdrom, with_volume, read_disk, read_nic,
  read_usb, read_other, read_device, read_value, read_text, read_key, read_keys,
}
use kubevirt_webgui.Proxmox.Config.Vm.{
  text, leave_if, leave_balloon, leave_setting, leave_settings, leave_rest, devices, parse,
}

-- A volume on a storage of Proxmox.
abbrev pub IsVolume : Str → Str → Type 0
IsVolume storage volid =
    (volume : Str) × (split_once b':' volid ≡ some (storage, volume))
    × (contains (codes "cloudinit") volid ≡ false)
    × (starts_with (codes "/") volid ≡ false)

-- Exactly the disks that can be copied have a volume.
abbrev pub IsCopied : Disk → Type 0
IsCopied d =
    ((d.importable ≡ false) × (d.volid ≡ none) × (d.storage ≡ none))
    ⊎ (volid storage : Str) × (d.importable ≡ true)
      × (d.volid ≡ some volid)
      × (d.storage ≡ some storage)
      × IsVolume storage volid

-- Keys that are of no disk leave the disks alone.
if-disks : (b : Bool) (p q : Parts) → (if b then p else q).disks ≡ (if b then p.disks else q.disks)
if-disks true p q = refl
if-disks false p q = refl

if-same : (b : Bool) (ds : List Disk) → (if b then ds else ds) ≡ ds
if-same true ds = refl
if-same false ds = refl

read_other-disks : (key value : Str) (p : Parts) → (read_other key value p).disks ≡ p.disks
unfolding read_other
read_other-disks key value p = simp (if-disks, if-same)

rate_limit-disks :
    (key : Str) (rate : Option Str) (p : Parts) → (rate_limit key rate p).disks ≡ p.disks
rate_limit-disks key none p = refl
rate_limit-disks key (some rate) p = refl

read_nic-disks : (key : Str) (props : Props) (p : Parts) → (read_nic key props p).disks ≡ p.disks
unfolding read_nic
read_nic-disks key props p = rate_limit-disks key _ _

read_usb-disks :
    (key value : Str) (host : Option Str) (p : Parts) → (read_usb key value host p).disks ≡ p.disks
read_usb-disks key value none p = refl
read_usb-disks key value (some host) p = refl

pub read_device-disks : (key value : Str) (p : Parts) → (read_device key value p).disks ≡ p.disks
unfolding read_device
read_device-disks key value p = simp (if-disks, if-same, read_nic-disks, read_usb-disks)

leave_if-disks : (b : Bool) (what : Str) (p : Parts) → (leave_if b what p).disks ≡ p.disks
leave_if-disks true what p = refl
leave_if-disks false what p = refl

leave_balloon-disks :
    (show : ℕ → Str) (balloon memory : Option ℕ) (p : Parts)
    → (leave_balloon show balloon memory p).disks ≡ p.disks
leave_balloon-disks show none memory p = refl
leave_balloon-disks show (some zero) memory p = refl
leave_balloon-disks show (some (suc b)) memory p = leave_if-disks _ _ p

leave_setting-disks :
    (key what : Str) (o : Option Str) (p : Parts) → (leave_setting key what o p).disks ≡ p.disks
leave_setting-disks key what none p = refl
leave_setting-disks key what (some value) p = refl

leave_settings-disks :
    (rows : List (Str × Str)) (config : Config) (p : Parts)
    → (leave_settings rows config p).disks ≡ p.disks
unfolding leave_settings
leave_settings-disks [] config p = refl
leave_settings-disks ((key, what) ∷ rest) config p =
    leave_settings-disks rest config (leave_setting key what (text config key) p)
    ∙ leave_setting-disks key what (text config key) p

pub leave_rest-disks :
    (show : ℕ → Str) (config : Config) (p : Parts) → (leave_rest show config p).disks ≡ p.disks
unfolding leave_rest
leave_rest-disks show config p = simp (leave_settings-disks, leave_balloon-disks, leave_if-disks)

with_volume-IsCopied :
    (sizes : Table ℕ) (head : Str) (d : Disk)
    → d.importable ≡ false
    → d.volid ≡ none
    → d.storage ≡ none
    → contains (codes "cloudinit") head ≡ false
    → starts_with (codes "/") head ≡ false
    → IsCopied (with_volume sizes head (split_once b':' head) d)
with_volume-IsCopied sizes head d i v s c h = elim (Option-cases (split_once b':' head)) [
  | inl bare ↦ rw bare (inl (i, v, s))
  | inr ((storage, volume), cut) ↦
      rw cut (inr (head, storage, refl, refl, refl, (volume, cut, c, h)))
]

read_disk-IsCopied :
    (sizes : Table ℕ) (head : Str) (d : Disk) (p : Parts)
    → d.importable ≡ false
    → d.volid ≡ none
    → d.storage ≡ none
    → All IsCopied p.disks
    → All IsCopied (read_disk sizes head d p).disks
unfolding read_disk
read_disk-IsCopied sizes head d p i v s h = elim (Bool-cases (contains (codes "cloudinit") head)) [
  | inl c ↦ rw c h
  | inr c ↦ rw c (elim (Bool-cases (str_eq head (codes "none") || is_empty head)) [
    | inl gone ↦ rw gone (drive (is_cdrom d))
    | inr kept ↦ rw kept (elim (Bool-cases (starts_with (codes "/") head)) [
      | inl host ↦ rw host (All-append IsCopied p.disks _ h (inl (i, v, s), tt))
      | inr bare ↦
          rw bare
            (All-append IsCopied p.disks _ h (with_volume-IsCopied sizes head d i v s c bare, tt))
    ])
  ])
]
  where
    drive :
        (b : Bool)
        → All IsCopied
            (if b
              then add_disk (record d { note = some (codes "empty CD-ROM drive") }) p
              else p).disks
    drive true = All-append IsCopied p.disks _ h (inl (i, v, s), tt)
    drive false = h

read_value-IsCopied :
    (scaled : Str → ℕ → Option ℕ) (sizes : Table ℕ) (key value : Str) (bus : Option Str) (p : Parts)
    → All IsCopied p.disks
    → All IsCopied (read_value scaled sizes key value bus p).disks
unfolding read_value new_disk
read_value-IsCopied scaled sizes key value none p h =
    subst (All IsCopied) (sym (read_device-disks key value p)) h
read_value-IsCopied scaled sizes key value (some bus) p h =
    read_disk-IsCopied sizes (or_else [] (parse_props value).head)
      (new_disk scaled key bus (parse_props value)) p refl refl refl h

read_text-IsCopied :
    (scaled : Str → ℕ → Option ℕ) (sizes : Table ℕ) (key : Str) (o : Option Str) (p : Parts)
    → All IsCopied p.disks
    → All IsCopied (read_text scaled sizes key o p).disks
unfolding read_text
read_text-IsCopied scaled sizes key none p h = h
read_text-IsCopied scaled sizes key (some v) p h =
    read_value-IsCopied scaled sizes key v (is_disk_key key) p h

read_keys-IsCopied :
    (scaled : Str → ℕ → Option ℕ) (sizes : Table ℕ) (config : Config) (p : Parts)
    → All IsCopied p.disks
    → All IsCopied (read_keys scaled sizes config p).disks
unfolding read_keys read_key
read_keys-IsCopied scaled sizes [] p h = h
read_keys-IsCopied scaled sizes (row ∷ rest) p h =
    read_keys-IsCopied scaled sizes rest (read_key scaled sizes row p)
      (read_text-IsCopied scaled sizes row.0 (text_of row.1) p h)

-- Whatever the configuration, of each disk's record that `parse` gives: it is offered for copying exactly
-- when the record has a volume: its storage is then what the volume has before its first colon, and the volume is neither a
-- cloud-init drive nor a path of the host. A disk that is not offered has no storage.
pub parse-IsCopied :
    (scaled : Str → ℕ → Option ℕ) (decode : Str → Option Str) (show : ℕ → Str) (sizes : Table ℕ)
    → (config : Config) → All IsCopied (parse scaled decode show sizes config).disks
unfolding parse devices
parse-IsCopied scaled decode show sizes config =
    subst (All IsCopied) (sym (leave_rest-disks show config _))
      (read_keys-IsCopied scaled sizes (sort_keys config) no_parts tt)
