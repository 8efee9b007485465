-- ===== src/Proxmox/Config/Vm.antt =====
-- The whole configuration, with what an import leaves behind.
use kubevirt_webgui.Base.{
  ℕ, zero, suc, ◌^◌, ◌%◌, Bool, true, false, not, ◌||◌, List, [], ◌∷◌, ◌++◌, map, keep, Option,
  none, some, Str, codes, str_eq, is_empty, contains, strip_prefix, split, split_where, trim, ◌==◌,
  if◌then◌else◌,
}
use kubevirt_webgui.Base.Maps.{Table}
use kubevirt_webgui.Proxmox.Config.{
  Value, Config, text_of, Disk, Nic, UsbPassthrough, Smbios, parse_u64,
}
use kubevirt_webgui.Proxmox.Config.Props.{Props, no_props, parse_props, flag, or_else, has_value}
use kubevirt_webgui.Proxmox.Config.Keys.{sort_keys, is_windows}
use kubevirt_webgui.Proxmox.Config.Devices.{Parts, no_parts, leave_behind, and_then, read_keys}

pub record VmConfig : Type 0 where
  pub name : Str
  pub description : Option Str
  pub tags : List Str
  pub ostype : Option Str
  pub bios : Str
  pub machine : Str
  pub machine_version : Option Str
  pub sockets : ℕ
  pub cores : ℕ
  pub vcpus : Option ℕ
  pub cpu_type : Str
  pub cpu_flags : Option Str
  pub memory_mib : ℕ
  pub balloon_mib : Option ℕ
  pub onboot : Bool
  pub agent : Bool
  pub boot_order : List Str
  pub smbios : Smbios
  pub efi_disk : Bool
  pub secure_boot : Bool
  pub tpm : Bool
  pub disks : List Disk
  pub nics : List Nic
  pub usb : List UsbPassthrough
  pub serial_console : Bool
  pub vga : Option Str
  pub tablet : Bool
  pub localtime : Bool
  pub template : Bool
  pub lock : Option Str
  pub has_snapshots : Bool
  pub cloud_init : Bool
  pub not_imported : List Str
  pub digest : Str

abbrev value_of : Str → Config → Option Value
value_of key [] = none
value_of key ((k, v) ∷ rest) = if str_eq k key then some v else value_of key rest

unfoldable pub text : Config → Str → Option Str
text config key = and_then (value_of key config) text_of

unfoldable pub number : Config → Str → Option ℕ
unfolding text parse_u64
number config key = and_then (text config key) parse_u64

abbrev props_at : Config → Str → Option Props
unfolding text parse_props
props_at config key = and_then (text config key) (λ v. some (parse_props v))

abbrev or_first : Option Str → Option Str → Option Str
or_first (some v) other = some v
or_first none other = other

abbrev or_props : Option Props → Props
or_props none = no_props
or_props (some p) = p

-- `decode` is base64 to a text, if it is one.
abbrev decoded : (Str → Option Str) → Bool → Option Str → Option Str
decoded decode encoded none = none
decoded decode encoded (some v) = if encoded then decode v else some v

unfoldable pub smbios_value : (Str → Option Str) → Props → Str → Option Str
smbios_value decode props key = decoded decode (flag (codes "base64") props) (props.pairs key)

abbrev filled_parts : List Str → List Str
filled_parts = keep (λ s. not (is_empty s))

abbrev order_of : Option Str → Config → List Str
unfolding split trim text
order_of (some order) config = filled_parts (map trim (split b';' order))
order_of none config = elim (text config (codes "bootdisk")) [ none ↦ [] | some d ↦ d ∷ [] ]

unfoldable pub boot_order : Config → List Str
unfolding order_of parse_props text
boot_order config =
    order_of ((parse_props (or_else [] (text config (codes "boot")))).pairs (codes "order")) config

abbrev or_number : ℕ → Option ℕ → ℕ
or_number default none = default
or_number default (some n) = n

abbrev is_separator : ℕ → Bool
is_separator c = c == b';' || c == b',' || c == b' '

abbrev tags_of : Option Str → List Str
unfolding split_where
tags_of none = []
tags_of (some t) = filled_parts (split_where is_separator t)

abbrev at_least_one : Option ℕ → ℕ
at_least_one none = 1
at_least_one (some zero) = 1
at_least_one (some (suc n)) = suc n

-- `as u32`.
abbrev pub to_u32 : ℕ → ℕ
to_u32 n = n % 2 ^ 32

abbrev machine_type : Config → Str
unfolding text parse_props
machine_type config = or_else [] (parse_props (or_else [] (text config (codes "machine")))).head

abbrev cpu_props : Config → Props
unfolding text parse_props
cpu_props config = parse_props (or_else (codes "kvm64") (text config (codes "cpu")))

abbrev pub leave_if : Bool → Str → Parts → Parts
leave_if true what p = leave_behind what p
leave_if false what p = p

-- The least memory, if there is any and it is not all: `show` prints a number.
abbrev pub leave_balloon : (ℕ → Str) → Option ℕ → Option ℕ → Parts → Parts
leave_balloon show none memory p = p
leave_balloon show (some zero) memory p = p
leave_balloon show (some (suc b)) memory p =
    leave_if (not (is_number memory))
      (codes "balloon: minimum memory " ++ (show (suc b) ++ codes " MiB")) p
  where
    is_number : Option ℕ → Bool
    is_number none = false
    is_number (some m) = m == suc b

abbrev pub settings : List (Str × Str)
settings =
    (codes "cpulimit", codes "CPU limit")
    ∷ (codes "cpuunits", codes "CPU weight")
    ∷ (codes "hugepages", codes "huge pages")
    ∷ (codes "hotplug", codes "hotplug settings")
    ∷ (codes "startup", codes "start-up order")
    ∷ []

abbrev pub leave_setting : Str → Str → Option Str → Parts → Parts
leave_setting key what none p = p
leave_setting key what (some value) p =
    leave_behind (key ++ (codes ": " ++ (what ++ (codes " (" ++ (value ++ codes ")"))))) p

unfoldable pub leave_settings : List (Str × Str) → Config → Parts → Parts
unfolding text
leave_settings [] config p = p
leave_settings ((key, what) ∷ rest) config p =
    leave_settings rest config (leave_setting key what (text config key) p)

-- What has no counterpart, after the devices.
unfoldable pub leave_rest : (ℕ → Str) → Config → Parts → Parts
unfolding leave_settings text number
leave_rest show config p = leave_settings settings config (
    leave_balloon show (number config (codes "balloon")) (number config (codes "memory")) (
      leave_if p.cloud_init (codes "cloud-init drive — its settings are not copied") (
        leave_if (has_value (text config (codes "tpmstate0")))
          (codes "tpmstate0: the TPM's contents (e.g. BitLocker keys) — the VM gets a fresh TPM")
          (leave_if (has_value (text config (codes "efidisk0")))
            (codes
              "efidisk0: the EFI variable store (boot entries) — the guest boots from its default loader path")
            p))))

abbrev is_text : Option Str → Str → Bool
is_text none s = false
is_text (some v) s = str_eq v s

abbrev is_agent : Option Str → Bool
unfolding parse_props
is_agent none = false
is_agent (some a) =
    is_text (parse_props a).head (codes "1") || flag (codes "enabled") (parse_props a)

abbrev is_local : Option Str → Option Str → Bool
unfolding is_windows
is_local (some v) ostype = str_eq v (codes "1")
is_local none none = false
is_local none (some os) = is_windows os

abbrev vga_of : Option Str → Option Str
unfolding parse_props
vga_of none = none
vga_of (some v) = some (or_else v (parse_props v).head)

abbrev is_secure : Option Props → Bool
is_secure none = false
is_secure (some e) = flag (codes "pre-enrolled-keys") e

module _ (scaled : Str → ℕ → Option ℕ) (decode : Str → Option Str) (show : ℕ → Str)
    (sizes : Table ℕ) where
  unfoldable pub devices : Config → Parts
  unfolding leave_rest read_keys sort_keys
  devices config = leave_rest show config (read_keys scaled sizes (sort_keys config) no_parts)

  unfoldable pub parse : Config → VmConfig
  unfolding devices smbios_value text number boot_order tags_of props_at machine_type cpu_props
      vga_of is_agent is_local
  parse config =
      let parts = devices config in
      let cpu = cpu_props config in
      let smbios = or_props (props_at config (codes "smbios1")) in
      let efidisk = props_at config (codes "efidisk0") in
      record {
        name = or_else [] (text config (codes "name"));
        description = text config (codes "description");
        tags = tags_of (text config (codes "tags"));
        ostype = text config (codes "ostype");
        bios = or_else (codes "seabios") (text config (codes "bios"));
        machine =
            if contains (codes "q35") (machine_type config) then codes "q35" else codes "i440fx";
        machine_version =
            or_first (strip_prefix (codes "pc-q35-") (machine_type config))
              (strip_prefix (codes "pc-i440fx-") (machine_type config));
        sockets = to_u32 (at_least_one (number config (codes "sockets")));
        cores = to_u32 (at_least_one (number config (codes "cores")));
        vcpus = and_then (number config (codes "vcpus")) (λ v. some (to_u32 v));
        cpu_type = or_else (codes "kvm64") (or_first (cpu.pairs (codes "cputype")) cpu.head);
        cpu_flags = cpu.pairs (codes "flags");
        memory_mib = or_number 512 (number config (codes "memory"));
        balloon_mib = number config (codes "balloon");
        onboot = is_text (text config (codes "onboot")) (codes "1");
        agent = is_agent (text config (codes "agent"));
        boot_order = boot_order config;
        smbios = record {
          uuid = smbios_value decode smbios (codes "uuid");
          serial = smbios_value decode smbios (codes "serial");
          manufacturer = smbios_value decode smbios (codes "manufacturer");
          product = smbios_value decode smbios (codes "product");
          family = smbios_value decode smbios (codes "family");
        };
        efi_disk = has_value (text config (codes "efidisk0"));
        secure_boot = is_secure efidisk;
        tpm = has_value (text config (codes "tpmstate0"));
        disks = parts.disks;
        nics = parts.nics;
        usb = parts.usb;
        serial_console = parts.serial_console;
        vga = vga_of (text config (codes "vga"));
        tablet = not (is_text (text config (codes "tablet")) (codes "0"));
        localtime = is_local (text config (codes "localtime")) (text config (codes "ostype"));
        template = is_text (text config (codes "template")) (codes "1");
        lock = text config (codes "lock");
        has_snapshots = has_value (text config (codes "parent"));
        cloud_init = parts.cloud_init;
        not_imported = parts.not_imported;
        digest = or_else [] (text config (codes "digest"));
      }
