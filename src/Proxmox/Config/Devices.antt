-- ===== src/Proxmox/Config/Devices.antt =====
-- The loop over the keys: disks, network cards, USB devices and what is left behind.
use kubevirt_webgui.Base.{
  ℕ, Bool, true, false, ◌||◌, List, [], ◌∷◌, ◌++◌, Option, none, some, Str, codes, str_eq, is_empty,
  starts_with, contains, split_once, if◌then◌else◌,
}
use kubevirt_webgui.Base.Maps.{Table}
use kubevirt_webgui.Proxmox.Config.{Value, Config, text_of, Disk, Nic, UsbPassthrough, parse_u32}
use kubevirt_webgui.Proxmox.Config.Props.{
  Props, parse_props, flag, or_else, has_value, is_one_of, parse_size,
}
use kubevirt_webgui.Proxmox.Config.Keys.{indexed, has_index, is_disk_key}

pub record Parts : Type 0 where
  pub disks : List Disk
  pub nics : List Nic
  pub usb : List UsbPassthrough
  pub cloud_init : Bool
  pub serial_console : Bool
  pub not_imported : List Str

abbrev pub no_parts : Parts
no_parts = record {
  disks = [];
  nics = [];
  usb = [];
  cloud_init = false;
  serial_console = false;
  not_imported = [];
}

abbrev pub leave_behind : Str → Parts → Parts
leave_behind what p = record p { not_imported = p.not_imported ++ (what ∷ []) }

abbrev pub add_disk : Disk → Parts → Parts
add_disk d p = record p { disks = p.disks ++ (d ∷ []) }

abbrev pub and_then {ℓ κ} : {A : Type ℓ} {B : Type κ} → Option A → (A → Option B) → Option B
and_then none f = none
and_then (some a) f = f a

module _ (scaled : Str → ℕ → Option ℕ) where
  -- A disk before its volume is looked at.
  unfoldable pub new_disk : Str → Str → Props → Disk
  unfolding parse_size
  new_disk key bus props = record {
    key = key;
    bus = bus;
    media = or_else (codes "disk") (props.pairs (codes "media"));
    volid = none;
    storage = none;
    size_bytes = and_then (props.pairs (codes "size")) (parse_size scaled);
    format = props.pairs (codes "format");
    cache = props.pairs (codes "cache");
    discard = str_eq (or_else [] (props.pairs (codes "discard"))) (codes "on");
    ssd = flag (codes "ssd") props;
    iothread = flag (codes "iothread") props;
    readonly = flag (codes "ro") props;
    serial = props.pairs (codes "serial");
    importable = false;
    note = none;
  }

abbrev pub is_cdrom : Disk → Bool
is_cdrom d = str_eq d.media (codes "cdrom")

abbrev or_size : Option ℕ → Option ℕ → Option ℕ
or_size none size = size
or_size (some exact) size = some exact

-- The volume of a disk: on a storage it can be copied.
abbrev pub with_volume : Table ℕ → Str → Option (Str × Str) → Disk → Disk
with_volume sizes head none d = d
with_volume sizes head (some (storage, volume)) d = record d {
  storage = some storage;
  volid = some head;
  size_bytes = or_size (sizes head) d.size_bytes;
  importable = true;
  note = if is_cdrom d then some (codes "ISO image") else d.note;
}

abbrev pub host_note : Str → Str
host_note head =
    codes "passes through the host device " ++ (head ++ codes ", which cannot be copied")

unfoldable pub read_disk : Table ℕ → Str → Disk → Parts → Parts
unfolding split_once
read_disk sizes head d p =
    if contains (codes "cloudinit") head
    then record p { cloud_init = true }
    else if str_eq head (codes "none") || is_empty head
    then if is_cdrom d
      then add_disk (record d { note = some (codes "empty CD-ROM drive") }) p
      else p
    else if starts_with (codes "/") head
    then add_disk (record d { note = some (host_note head) }) p
    else add_disk (with_volume sizes head (split_once b':' head) d) p

abbrev nic_models : List Str
nic_models =
    codes "virtio"
    ∷ codes "e1000"
    ∷ codes "e1000e"
    ∷ codes "rtl8139"
    ∷ codes "vmxnet3"
    ∷ codes "i82551"
    ∷ codes "i82557b"
    ∷ codes "i82559er"
    ∷ codes "ne2k_isa"
    ∷ codes "ne2k_pci"
    ∷ codes "pcnet"
    ∷ []

abbrev first_model : List Str → Props → Option Str
first_model [] props = none
first_model (m ∷ ms) props = if has_value (props.pairs m) then some m else first_model ms props

abbrev filled : Option Str → Option Str
filled none = none
filled (some s) = if is_empty s then none else some s

-- The model and the address: `virtio=<mac>`, or `model=…,macaddr=…`.
abbrev pub model_and_mac : Option Str → Props → Str × Option Str
model_and_mac (some m) props = (m, filled (props.pairs m))
model_and_mac none props =
    (or_else (codes "virtio") (props.pairs (codes "model")), props.pairs (codes "macaddr"))

unfoldable pub new_nic : Str → Props → Nic
unfolding parse_u32
new_nic key props =
    let (model, mac) = model_and_mac (first_model nic_models props) props in
    record {
      key = key;
      model = model;
      mac = mac;
      bridge = props.pairs (codes "bridge");
      vlan = and_then (props.pairs (codes "tag")) parse_u32;
      firewall = flag (codes "firewall") props;
      link_down = flag (codes "link_down") props;
      queues = and_then (props.pairs (codes "queues")) parse_u32;
    }

abbrev pub rate_limit : Str → Option Str → Parts → Parts
rate_limit key none p = p
rate_limit key (some rate) p =
    leave_behind (key ++ (codes ": the " ++ (rate ++ codes " MB/s rate limit"))) p

unfoldable pub read_nic : Str → Props → Parts → Parts
unfolding new_nic
read_nic key props p =
    rate_limit key (props.pairs (codes "rate"))
      (record p { nics = p.nics ++ (new_nic key props ∷ []) })

abbrev pub read_usb : Str → Str → Option Str → Parts → Parts
read_usb key value none p = leave_behind (key ++ (codes ": " ++ value)) p
read_usb key value (some host) p = record p {
  usb = p.usb ++ (record { key = key; host = host } ∷ []);
}

abbrev pub read_serial : Str → Str → Parts → Parts
read_serial key value p =
    if str_eq value (codes "socket")
    then record p { serial_console = true }
    else leave_behind (key ++ (codes ": host serial port " ++ value)) p

abbrev other_keys : List Str
other_keys =
    codes "audio0"
    ∷ codes "rng0"
    ∷ codes "watchdog"
    ∷ codes "args"
    ∷ codes "hookscript"
    ∷ codes "numa0"
    ∷ []

-- Keys that are no disk, card, USB device or serial port.
unfoldable pub read_other : Str → Str → Parts → Parts
read_other key value p =
    if starts_with (codes "hostpci") key
    then leave_behind
        (key
          ++ (codes ": PCI passthrough ("
              ++ (value ++ codes ") — attach devices through KubeVirt host devices")))
        p
    else if starts_with (codes "unused") key
    then leave_behind (key ++ (codes ": detached disk " ++ value)) p
    else if starts_with (codes "parallel") key
        || starts_with (codes "virtiofs") key
        || is_one_of key other_keys
    then leave_behind (key ++ (codes ": " ++ value)) p
    else p

unfoldable pub read_device : Str → Str → Parts → Parts
unfolding indexed read_nic read_other parse_props
read_device key value p =
    if has_index (indexed (codes "net") key)
    then read_nic key (parse_props value) p
    else if has_index (indexed (codes "usb") key)
    then read_usb key value ((parse_props value).pairs (codes "host")) p
    else if has_index (indexed (codes "serial") key)
    then read_serial key value p
    else read_other key value p

module _ (scaled : Str → ℕ → Option ℕ) (sizes : Table ℕ) where
  -- What a key with a value leads to: `bus` is that of a disk's key.
  unfoldable pub read_value : Str → Str → Option Str → Parts → Parts
  unfolding read_device read_disk new_disk parse_props
  read_value key value none p = read_device key value p
  read_value key value (some bus) p =
      let props = parse_props value in
      read_disk sizes (or_else [] props.head) (new_disk scaled key bus props) p

  unfoldable pub read_text : Str → Option Str → Parts → Parts
  unfolding read_value is_disk_key
  read_text key none p = p
  read_text key (some value) p = read_value key value (is_disk_key key) p

  unfoldable pub read_key : Str × Value → Parts → Parts
  unfolding read_text
  read_key (key, value) p = read_text key (text_of value) p

  unfoldable pub read_keys : Config → Parts → Parts
  unfolding read_key
  read_keys [] p = p
  read_keys (row ∷ rest) p = read_keys rest (read_key row p)
