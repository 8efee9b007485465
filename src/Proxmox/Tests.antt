-- ===== src/Proxmox/Tests.antt =====
-- An allow list with a network and a name, and a volume id.
use kubevirt_webgui.Base.{
  ℕ, arith, subst, ◌≡◌, refl, ◌↔◌, ◌⊎◌, ◌*◌, ◌+◌, ◌^◌, true, false, List, [], ◌∷◌, All, Option,
  none, some, Str, codes, str_eq, byte_len, trim, split_once, if◌then◌else◌, Result, ok, err,
}
use kubevirt_webgui.Proxmox.Allow.{
  Ip, v4, v6, network, host, in_network, AllowList, Address, has_none, bare_host, is_bad_host,
  parse, pick, resolve, not_allowed,
}
use kubevirt_webgui.Proxmox.Allow.Laws.{IsWithin, in_network_iff}
use kubevirt_webgui.Proxmox.Allow.Resolved.{
  IsFirst, IsUncovered, IsAddress, resolve-cases, resolve-IsFirst,
}
use kubevirt_webgui.Proxmox.Names.{IsVolid, valid_name, valid_volid, valid_volid-IsHarmless}

-- 10.0.x.y
abbrev ip : ℕ → ℕ → ℕ
ip x y = 10 * 2 ^ 24 + x * 2 ^ 8 + y

abbrev parse_ip : Str → Option Ip
unfolding str_eq
parse_ip text = if str_eq text (codes "10.0.4.0") then some (v4 (ip 4 0)) else none

abbrev hosts : AllowList
hosts = network (v4 (ip 4 0)) 24 ∷ host (codes "pve.example.com") ∷ []

hosts_parsed :
    parse parse_ip (codes " 10.0.4.0/24" ∷ codes "PVE.example.com" ∷ [] ∷ codes "1.2.3.4/x" ∷ [])
    ≡ hosts
unfolding parse parse_ip str_eq split_once trim
hosts_parsed = refl

in_network_iff_example :
    (in_network (v6 (0xffff * 2 ^ 32 + ip 4 9)) (v4 (ip 4 0)) 24 ≡ true)
    ↔ IsWithin (v6 (0xffff * 2 ^ 32 + ip 4 9)) (v4 (ip 4 0)) 24
in_network_iff_example =
    in_network_iff (v6 (0xffff * 2 ^ 32 + ip 4 9)) (v4 (ip 4 0)) 24 (omega arith) (omega arith)

-- Every name has two addresses.
abbrev addresses : List Address
addresses = (v4 (ip 5 2), 22) ∷ (v4 (ip 4 2), 22) ∷ []

abbrev lookup : Str → ℕ → Result Str (List Address)
lookup name port = ok addresses

resolve-cases_example :
    ((addr : Address) × (resolve lookup hosts (codes "[pve]") 22 ≡ ok addr)
      × IsFirst hosts (bare_host (codes "[pve]")) addresses addr)
    ⊎ ((resolve lookup hosts (codes "[pve]") 22 ≡ err (not_allowed (bare_host (codes "[pve]"))))
        × All (IsUncovered hosts (bare_host (codes "[pve]"))) addresses)
unfolding is_bad_host bare_host byte_len
resolve-cases_example =
    resolve-cases lookup hosts (codes "[pve]") 22 addresses refl refl refl (omega arith, (tt, tt))
      (omega arith, (omega arith, tt))

lookup-IsAddress :
    (name : Str) (port : ℕ) (found : List Address)
    → lookup name port ≡ ok found
    → All IsAddress found
lookup-IsAddress name port found e =
    subst (All IsAddress) (same found e) (omega arith, (omega arith, tt))
  where
    same : (found : List Address) → lookup name port ≡ ok found → addresses ≡ found
    same found e = cc

resolve-IsFirst_example :
    (has_none hosts ≡ false)
    × (is_bad_host (bare_host (codes "pve")) ≡ false)
    × (found : List Address) × (lookup (bare_host (codes "pve")) 22 ≡ ok found)
    × IsFirst hosts (bare_host (codes "pve")) found (v4 (ip 4 2), 22)
unfolding resolve pick in_network str_eq
resolve-IsFirst_example =
    resolve-IsFirst lookup hosts (codes "pve") 22 (v4 (ip 4 2), 22) (omega arith, (tt, tt))
      lookup-IsAddress refl

valid_volid-IsHarmless_example : IsVolid (codes "local:iso/debian-12.iso")
unfolding valid_volid valid_name byte_len split_once
valid_volid-IsHarmless_example = valid_volid-IsHarmless (codes "local:iso/debian-12.iso") refl
