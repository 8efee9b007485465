-- ===== src/Proxmox/Allow/Laws.antt =====
-- Which addresses a list lets an import connect to.
use Prim.Native.Nat.{min}
use kubevirt_webgui.Base.{
  ℕ, ◌-◌, ◌%◌, ◌/◌, ◌^◌, ◌<◌, ◌≡◌, refl, ◌↔◌, ◌⊎◌, inl, inr, true, false, [], ◌∷◌, All, Str,
  str_eq_iff, to_lower, ◌==◌, ==_iff, arith, Bool-cases,
}
use kubevirt_webgui.Proxmox.Allow.{
  Ip, v4, v6, Entry, anything, network, host, to_ipv4_mapped, is_mapped_in, in_network, AllowList,
  entry_allows, allows,
}
use kubevirt_webgui.Proxmox.Allow.Masks.{drop_bits, is_same_net_iff, masks_32, masks_128}

abbrev pub IsIp : Ip → Type 0
IsIp (v4 ip) = ip < 2 ^ 32
IsIp (v6 ip) = ip < 2 ^ 128

-- Two addresses agree in their leading bits.
abbrev pub SameLead : ℕ → ℕ → ℕ → ℕ → Type 0
SameLead width prefix ip net =
    drop_bits (width - min prefix width) ip ≡ drop_bits (width - min prefix width) net

abbrev pub IsWithin : Ip → Ip → ℕ → Type 0
IsWithin (v4 ip) (v4 net) prefix = SameLead 32 prefix ip net
IsWithin (v6 ip) (v6 net) prefix = SameLead 128 prefix ip net
IsWithin (v6 ip) (v4 net) prefix = (ip / 2 ^ 32 ≡ 0xffff) × SameLead 32 prefix (ip % 2 ^ 32) net
IsWithin (v4 ip) (v6 net) prefix = false ≡ true

mapped_iff :
    (ip net prefix : ℕ)
    → net < 2 ^ 32
    → (is_mapped_in (to_ipv4_mapped ip) net prefix ≡ true)
      ↔ ((ip / 2 ^ 32 ≡ 0xffff) × SameLead 32 prefix (ip % 2 ^ 32) net)
unfolding to_ipv4_mapped is_mapped_in
mapped_iff ip net prefix n =
    let same = is_same_net_iff 32 (ip % 2 ^ 32) net prefix masks_32 (omega arith) n in
    elim (Bool-cases (ip / 2 ^ 32 == 0xffff)) [
      | inl yes_mapped ↦ rw yes_mapped (λ e. ((==_iff _ _).0 yes_mapped, same.0 e), λ m. same.1 m.1)
      | inr no_mapped ↦ rw no_mapped (λ e. absurd (ground arith), λ m. absurd (ground arith))
    ]

-- An address is in a network exactly when the two agree in as many leading bits as the prefix says, but
-- in no more than they have; an IPv6 address is in a network of IPv4 addresses when it stands for one.
pub in_network_iff :
    (ip net : Ip) (prefix : ℕ)
    → IsIp ip
    → IsIp net
    → (in_network ip net prefix ≡ true) ↔ IsWithin ip net prefix
unfolding in_network
in_network_iff (v4 ip) (v4 net) prefix i n = is_same_net_iff 32 ip net prefix masks_32 i n
in_network_iff (v6 ip) (v6 net) prefix i n = is_same_net_iff 128 ip net prefix masks_128 i n
in_network_iff (v6 ip) (v4 net) prefix i n = mapped_iff ip net prefix n
in_network_iff (v4 ip) (v6 net) prefix i n = (λ e. e, λ e. e)

-- What an entry lets through.
abbrev pub Covers : Str → Ip → Entry → Type 0
Covers name ip anything = Unit
Covers name ip (network net prefix) = IsWithin ip net prefix
Covers name ip (host allowed) = allowed ≡ to_lower name

abbrev pub IsCovered : Str → Ip → AllowList → Type 0
IsCovered name ip [] = false ≡ true
IsCovered name ip (entry ∷ entries) = Covers name ip entry ⊎ IsCovered name ip entries

abbrev pub IsEntry : Entry → Type 0
IsEntry anything = Unit
IsEntry (network net prefix) = IsIp net
IsEntry (host allowed) = Unit

entry_allows_iff :
    (name : Str) (ip : Ip) (entry : Entry)
    → IsIp ip
    → IsEntry entry
    → (entry_allows name ip entry ≡ true) ↔ Covers name ip entry
unfolding entry_allows
entry_allows_iff name ip anything i e = (λ _. tt, λ _. refl)
entry_allows_iff name ip (network net prefix) i e = in_network_iff ip net prefix i e
entry_allows_iff name ip (host allowed) i e = str_eq_iff allowed (to_lower name)

pub allows_iff :
    (entries : AllowList) (name : Str) (ip : Ip)
    → IsIp ip
    → All IsEntry entries
    → (allows entries name ip ≡ true) ↔ IsCovered name ip entries
unfolding allows
allows_iff [] name ip i h = (λ e. e, λ e. e)
allows_iff (entry ∷ entries) name ip i (e, h) =
    let here = entry_allows_iff name ip entry i e in
    let there = allows_iff entries name ip i h in
    elim (Bool-cases (entry_allows name ip entry)) [
      | inl yes_here ↦ rw yes_here (λ _. inl (here.0 yes_here), λ _. refl)
      | inr no_here ↦ rw no_here (
        λ e. inr (there.0 e),
        λ c. elim c [
          | inl covered ↦ absurd (ground (arith, here.1 covered))
          | inr later ↦ there.1 later
        ],
      )
    ]
