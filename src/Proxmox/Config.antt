-- ===== src/Proxmox/Config.antt =====
-- The configuration of a Proxmox VM (src/proxmox/config.rs): what an import needs of it. The decoding
-- of base64 and the floating-point arithmetic on sizes are arguments.
pub mod Props
pub mod Keys
pub mod Devices
pub mod Vm
pub mod RoundTrip
pub mod Disks
pub mod Entries
pub mod Complete
mod Tests
use kubevirt_webgui.Base.{
  ℕ, ◌^◌, Bool, true, false, not, List, [], ◌∷◌, ◌++◌, Option, none, some, Str, codes, is_empty,
  if◌then◌else◌,
}
use kubevirt_webgui.Base.Numbers.{parse_below}

-- A value of the configuration, which is JSON. A number is as it is printed.
pub data Value : Type 0 where
  null array object : Value
  bool : Bool → Value
  number string : Str → Value

-- The configuration by key, in the order of the keys.
abbrev pub Config : Type 0
Config = List (Str × Value)

abbrev pub if_filled : Str → Option Str
if_filled s = if is_empty s then none else some s

abbrev pub text_of : Value → Option Str
text_of (string s) = if_filled s
text_of (number n) = if_filled n
text_of (bool b) = some (if b then codes "1" else codes "0")
text_of null = none
text_of array = none
text_of object = none

pub record Disk : Type 0 where
  pub key : Str
  pub bus : Str
  pub media : Str
  pub volid : Option Str
  pub storage : Option Str
  pub size_bytes : Option ℕ
  pub format : Option Str
  pub cache : Option Str
  pub discard : Bool
  pub ssd : Bool
  pub iothread : Bool
  pub readonly : Bool
  pub serial : Option Str
  pub importable : Bool
  pub note : Option Str

pub record Nic : Type 0 where
  pub key : Str
  pub model : Str
  pub mac : Option Str
  pub bridge : Option Str
  pub vlan : Option ℕ
  pub firewall : Bool
  pub link_down : Bool
  pub queues : Option ℕ

pub record UsbPassthrough : Type 0 where
  pub key : Str
  pub host : Str

pub record Smbios : Type 0 where
  pub uuid : Option Str
  pub serial : Option Str
  pub manufacturer : Option Str
  pub product : Option Str
  pub family : Option Str

abbrev pub parse_u32 : Str → Option ℕ
unfolding parse_below
parse_u32 = parse_below (2 ^ 32)

abbrev pub parse_u64 : Str → Option ℕ
unfolding parse_below
parse_u64 = parse_below (2 ^ 64)
