-- ===== src/Proxmox/Allow.antt =====
-- The hosts that an import may connect to (src/proxmox/mod.rs). The reading of addresses and the lookup of
-- names are arguments.
use Prim.Native.Nat.{bit_and, min}
use kubevirt_webgui.Base.{
  ℕ, ◌*◌, ◌-◌, ◌%◌, ◌/◌, ◌^◌, Bool, true, false, not, ◌||◌, List, [], ◌∷◌, ◌++◌, any, all, Option,
  none, some, Str, codes, str_eq, is_empty, is_alnum, to_lower, byte_len, trim, trim_start,
  trim_end, split_once, ltb, ◌==◌, if◌then◌else◌, Result, ok, err, Message,
}
use kubevirt_webgui.Base.Numbers.{parse_below}
pub mod Masks
pub mod Laws
pub mod Resolved

pub data Ip : Type 0 where
  v4 v6 : ℕ → Ip

pub data Entry : Type 0 where
  anything : Entry
  network : Ip → ℕ → Entry
  host : Str → Entry

-- `MAX << (width - prefix)`, and 0 for no prefix at all.
unfoldable pub mask : ℕ → ℕ → ℕ
mask width prefix = if prefix == 0 then 0 else ((2 ^ width - 1) * 2 ^ (width - prefix)) % 2 ^ width

unfoldable pub is_same_net : ℕ → ℕ → ℕ → ℕ → Bool
unfolding mask
is_same_net width ip net prefix =
    let m = mask width (min prefix width) in bit_and ip m == bit_and net m

-- `Ipv6Addr::to_ipv4_mapped`: of `::ffff:a.b.c.d`.
unfoldable pub to_ipv4_mapped : ℕ → Option ℕ
to_ipv4_mapped ip = if ip / 2 ^ 32 == 0xffff then some (ip % 2 ^ 32) else none

unfoldable pub is_mapped_in : Option ℕ → ℕ → ℕ → Bool
unfolding is_same_net
is_mapped_in none net prefix = false
is_mapped_in (some ip) net prefix = is_same_net 32 ip net prefix

unfoldable pub in_network : Ip → Ip → ℕ → Bool
unfolding is_same_net to_ipv4_mapped is_mapped_in
in_network (v4 ip) (v4 net) prefix = is_same_net 32 ip net prefix
in_network (v6 ip) (v6 net) prefix = is_same_net 128 ip net prefix
in_network (v6 ip) (v4 net) prefix = is_mapped_in (to_ipv4_mapped ip) net prefix
in_network (v4 ip) (v6 net) prefix = false

abbrev pub AllowList : Type 0
AllowList = List Entry

abbrev pub full_prefix : Ip → ℕ
full_prefix (v4 ip) = 32
full_prefix (v6 ip) = 128

unfoldable pub entry_allows : Str → Ip → Entry → Bool
unfolding in_network
entry_allows name ip anything = true
entry_allows name ip (network net prefix) = in_network ip net prefix
entry_allows name ip (host allowed) = str_eq allowed (to_lower name)

unfoldable pub allows : AllowList → Str → Ip → Bool
unfolding entry_allows
allows entries name ip = any (entry_allows name ip) entries

abbrev pub push_some : Option Entry → AllowList → AllowList
push_some none rest = rest
push_some (some entry) rest = entry ∷ rest

abbrev pub network_of : Option Ip → Option ℕ → Option Entry
network_of (some ip) (some prefix) = some (network ip prefix)
network_of (some ip) none = none
network_of none prefix = none

abbrev pub address_or_host : Option Ip → Str → Option Entry
address_or_host (some ip) item = some (network ip (full_prefix ip))
address_or_host none item = some (host (to_lower item))

module _ (parse_ip : Str → Option Ip) where
  abbrev pub read_range : Option (Str × Str) → Str → Option Entry
  unfolding parse_below
  read_range (some (addr, prefix)) item = network_of (parse_ip addr) (parse_below 256 prefix)
  read_range none item = address_or_host (parse_ip item) item

  unfoldable pub read_item : Str → Option Entry
  unfolding read_range trim split_once
  read_item raw =
      let item = trim raw in
      if is_empty item
      then none
      else if str_eq item (codes "*")
      then some anything
      else read_range (split_once b'/' item) item

  unfoldable pub parse : List Str → AllowList
  unfolding read_item
  parse [] = []
  parse (item ∷ items) = push_some (read_item item) (parse items)

abbrev pub is_host_char : ℕ → Bool
is_host_char c = is_alnum c || c == b'.' || c == b'-' || c == b':' || c == b'_'

abbrev pub is_bracket : ℕ → ℕ → Bool
is_bracket bracket c = c == bracket

-- The host without spaces and brackets around it.
unfoldable pub bare_host : Str → Str
unfolding trim trim_start trim_end
bare_host name = trim_end (is_bracket b']') (trim_start (is_bracket b'[') (trim name))

unfoldable pub is_bad_host : Str → Bool
unfolding byte_len
is_bad_host name = is_empty name || ltb 253 (byte_len name) || any (λ c. not (is_host_char c)) name

abbrev pub Address : Type 0
Address = Ip × ℕ

unfoldable pub first_allowed : AllowList → Str → List Address → Option Address
unfolding allows
first_allowed entries name [] = none
first_allowed entries name (addr ∷ rest) =
    let later = first_allowed entries name rest in
    if allows entries name addr.0 then some addr else later

abbrev pub not_enabled : Message
not_enabled = record {
  format =
      "importing from Proxmox is not enabled on this server: an administrator sets PROXMOX_ALLOWED_HOSTS to the Proxmox hosts (names, addresses or CIDR ranges) it may connect to";
  args = [];
}

abbrev pub no_host : Str → Message
no_host name = record { format = "`{host}` is not a host name or address"; args = name ∷ [] }

abbrev pub no_address : Str → Str → Message
no_address name e = record { format = "could not resolve {host}: {e}"; args = name ∷ e ∷ [] }

abbrev pub not_allowed : Str → Message
not_allowed name = record {
  format = "{host} is not among the hosts this server may import from (PROXMOX_ALLOWED_HOSTS)";
  args = name ∷ [];
}

abbrev pub or_refuse : Str → Option Address → Result Message Address
or_refuse name none = err (not_allowed name)
or_refuse name (some addr) = ok addr

unfoldable pub pick : AllowList → Str → Result Str (List Address) → Result Message Address
unfolding first_allowed
pick entries name (err e) = err (no_address name e)
pick entries name (ok addresses) = or_refuse name (first_allowed entries name addresses)

abbrev pub has_none : AllowList → Bool
has_none [] = true
has_none (entry ∷ entries) = false

module _ (lookup_host : Str → ℕ → Result Str (List Address)) where
  unfoldable pub resolve : AllowList → Str → ℕ → Result Message Address
  unfolding bare_host is_bad_host pick
  resolve entries name port =
      if has_none entries
      then err not_enabled
      else if is_bad_host (bare_host name)
      then err (no_host (bare_host name))
      else pick entries (bare_host name) (lookup_host (bare_host name) port)
