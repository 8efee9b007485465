-- ===== src/Netagent/Agent.antt =====
-- The passes of the node agent (`Agent` in src/netagent/mod.rs): what is to be done for one pod. What
-- the host answers, and reading and printing addresses and numbers, are arguments.
use kubevirt_webgui.Base.{
  ℕ, suc, ◌-◌, ◌+◌, Bool, true, false, not, ◌&&◌, List, [], ◌∷◌, ◌++◌, map, Option, none, some, Str,
  codes, str_eq, is_empty, first, ltb, length, join, to_lower, if◌then◌else◌, Result, ok, err,
  ◌>>=◌, or_fail,
}
use kubevirt_webgui.Base.Json.{Json, field, field_of, as_str, as_list}
use kubevirt_webgui.Base.Maps.{Table, insert}
use kubevirt_webgui.Base.Sets.{str_ord, of_list}
use kubevirt_webgui.Netagent.Plan.{Resolved, Current, commands}
use kubevirt_webgui.Netagent.Annotation.{Entry, unless_auto, cidr}
use kubevirt_webgui.Netagent.Counts.{bridge_for, packet_counts}
pub mod Status
pub mod Passes
pub mod Resolves
pub mod Worst
pub mod Reports
pub mod Owned
mod Tests

-- How an interface fares, in the words of the status.
pub data State : Type 0 where
  disabled applied pending failed : State

-- `pointer` along the keys of objects.
unfoldable pub at : List Str → Option Json → Option Json
at [] v = v
at (key ∷ keys) v = at keys (field_of key v)

abbrev pub or_empty : Option Str → Str
or_empty none = []
or_empty (some s) = s

unfoldable pub str_at : List Str → Option Json → Str
unfolding at
str_at keys v = or_empty (as_str (at keys v))

abbrev pub is_named : Str → Json → Bool
is_named name i = elim (as_str (field (codes "name") i)) [ some s ↦ str_eq s name | none ↦ false ]

-- What the VMI reports on an interface.
unfoldable pub reported : Json → Str → Option Json
unfolding at str_eq
reported vmi interface =
    first (is_named interface) (as_list (at (codes "status" ∷ codes "interfaces" ∷ []) (some vmi)))

abbrev pub strings : List Json → List Str
strings [] = []
strings (v ∷ rest) = elim (as_str (some v)) [ some s ↦ s ∷ strings rest | none ↦ strings rest ]

-- The addresses that an interface reports.
unfoldable pub addresses : Option Json → List Str
unfolding str_at
addresses status =
    str_at (codes "ipAddress" ∷ []) status
    ∷ strings (as_list (field_of (codes "ipAddresses") status))

abbrev pub no_guest_ip : Str
no_guest_ip = codes "waiting for the guest's IPv4 address (needs the guest agent, or set guestIP)"

abbrev pub no_pod_interface : Str → Str
no_pod_interface interface =
    codes "the VMI reports no pod interface for "
    ++ (interface ++ codes "; is it a bridged interface?")

abbrev pub no_bridge : Str → List Str → Str
no_bridge pod_interface bridges =
    codes "no bridge k6t-… for "
    ++ (pod_interface
        ++ (codes " in the launcher pod (found " ++ (join (codes ", ") bridges ++ codes ")")))

-- How long a resolved gateway MAC is trusted, in seconds.
abbrev pub mac_ttl : ℕ
mac_ttl = 300

-- The addresses of gateways, each with its MAC and when that was read.
abbrev pub Macs : Type 0
Macs = Table (Str × ℕ)

-- What is found when a gateway is looked up: the time, what the host says, and the time then.
pub record Look : Type 0 where
  pub now : ℕ
  pub asked : Result Str Str
  pub later : ℕ

unfoldable pub fresh_mac : ℕ → Option (Str × ℕ) → Option Str
fresh_mac now none = none
fresh_mac now (some (mac, read)) = if ltb (now - read) mac_ttl then some mac else none

abbrev pub Refusal : Type 0
Refusal = State × Str

unfoldable pub remember : Str → Result Str Str → ℕ → Macs → Result Refusal Str × Macs
unfolding insert
remember gateway (err e) later macs = (err (failed, e), macs)
remember gateway (ok mac) later macs = (ok mac, insert gateway (mac, later) macs)

unfoldable pub known_or_asked : Str → Look → Option Str → Macs → Result Refusal Str × Macs
unfolding remember
known_or_asked gateway look (some mac) macs = (ok mac, macs)
known_or_asked gateway look none macs = remember gateway look.asked look.later macs

unfoldable pub gateway_mac : Str → Option Str → Look → Macs → Result Refusal Str × Macs
unfolding known_or_asked fresh_mac
gateway_mac gateway (some mac) look macs = (ok (to_lower mac), macs)
gateway_mac gateway none look macs =
    known_or_asked gateway look (fresh_mac look.now (macs gateway)) macs

module _ (parse_ip : Str → Option ℕ) (print_ip : ℕ → Str) (show : ℕ → Str) where
  abbrev pub is_ip : Str → Bool
  is_ip a = elim (parse_ip a) [ some _ ↦ true | none ↦ false ]

  unfoldable pub guest_ip : Option Str → Option Json → Result Refusal Str
  unfolding addresses
  guest_ip (some ip) status = ok ip
  guest_ip none status = or_fail (first is_ip (addresses status)) (pending, no_guest_ip)

  unfoldable pub ranges : List Str → List Str
  unfolding cidr
  ranges [] = []
  ranges (c ∷ rest) =
      let more = ranges rest in
      elim (cidr parse_ip print_ip show c) [ ok r ↦ r ∷ more | err _ ↦ more ]

  -- The bridge and the address of the guest.
  unfoldable pub place : Json → Entry → List Str → Result Refusal (Str × Str)
  unfolding reported str_at bridge_for guest_ip unless_auto
  place vmi entry bridges =
      let status = reported vmi entry.interface in
      let pod_interface = str_at (codes "podInterfaceName" ∷ []) status in
      if is_empty pod_interface then err (failed, no_pod_interface entry.interface) else (do
        bridge ←
            or_fail (bridge_for pod_interface bridges) (failed, no_bridge pod_interface bridges)
        ip ← guest_ip (unless_auto entry.guest_ip) status
        ok (bridge, ip))

  unfoldable pub with_mac :
      Entry → Str × Str → Result Refusal Str × Macs → Result Refusal Resolved × Macs
  unfolding ranges of_list
  with_mac entry (bridge, ip) (err e, macs) = (err e, macs)
  with_mac entry (bridge, ip) (ok mac, macs) = (
    ok (record {
      interface = entry.interface;
      bridge = bridge;
      clients = of_list (ranges entry.clients);
      guest_ip = ip;
      snat_to = entry.snat_to;
      gateway_mac = mac;
    }),
    macs,
  )

  unfoldable pub with_place :
      Entry → Look → Macs → Result Refusal (Str × Str) → Result Refusal Resolved × Macs
  unfolding gateway_mac with_mac unless_auto
  with_place entry look macs (err e) = (err e, macs)
  with_place entry look macs (ok p) =
      with_mac entry p (gateway_mac entry.snat_to (unless_auto entry.gateway_mac) look macs)

  -- Fill in an entry's `auto` fields for this pod.
  unfoldable pub resolve : Json → Entry → List Str → Look → Macs → Result Refusal Resolved × Macs
  unfolding place with_place
  resolve vmi entry bridges look macs = with_place entry look macs (place vmi entry bridges)
