-- ===== src/Proxmox/Config/Tests.antt =====
-- A virtual machine with odd devices.
use mathlib.Core.List.{Perm}
use kubevirt_webgui.Base.{
  ℕ, ◌*◌, ◌+◌, ◌≡◌, refl, List, [], ◌∷◌, Option, some, Str, codes, join, All, trim, str_eq, true,
  false,
}
use kubevirt_webgui.Base.Maps.{no_rows}
use kubevirt_webgui.Proxmox.Config.{Value, Config, parse_u64}
use kubevirt_webgui.Proxmox.Config.Props.{parse_props}
use kubevirt_webgui.Proxmox.Config.Keys.{sort_keys}
use kubevirt_webgui.Proxmox.Config.Devices.{and_then, read_keys}
use kubevirt_webgui.Proxmox.Config.Vm.{parse, devices}
use kubevirt_webgui.Proxmox.Config.Disks.{IsCopied, parse-IsCopied}
use kubevirt_webgui.Proxmox.Config.Complete.{keys, listed, parse_complete}
use kubevirt_webgui.Proxmox.Config.RoundTrip.{renders, insert_all, parse_props-join}

-- Sizes in whole numbers.
abbrev scaled : Str → ℕ → Option ℕ
scaled text n = and_then (parse_u64 text) (λ k. some (k * n))

abbrev decode : Str → Option Str
decode s = some s

abbrev show : ℕ → Str
show n = (b'0' + n) ∷ []

abbrev legacy : Config
legacy =
    (codes "ide0", Value.string (codes "local-lvm:vm-9-disk-0,size=10G"))
    ∷ (codes "ide2", Value.string (codes "none,media=cdrom"))
    ∷ (codes "ide3", Value.string (codes "local-lvm:vm-9-cloudinit,media=cdrom"))
    ∷ (codes "memory", Value.number (codes "2048"))
    ∷ (codes "sata1", Value.string (codes "local:iso/debian.iso,media=cdrom"))
    ∷ (codes "virtio2", Value.string (codes "/dev/disk/by-id/ata-XYZ,size=1T"))
    ∷ []

legacy_disks :
    keys (parse scaled decode show no_rows legacy).disks
    ≡ (codes "ide0", true)
      ∷ (codes "ide2", false)
      ∷ (codes "sata1", true)
      ∷ (codes "virtio2", false)
      ∷ []
unfolding parse devices read_keys sort_keys str_eq
legacy_disks = refl

parse-IsCopied_example : All IsCopied (parse scaled decode show no_rows legacy).disks
parse-IsCopied_example = parse-IsCopied scaled decode show no_rows legacy

parse_complete_example :
    (keys (parse scaled decode show no_rows legacy).disks ≡ listed (sort_keys legacy))
    × Perm (sort_keys legacy) legacy
parse_complete_example = parse_complete scaled decode show no_rows legacy

abbrev net_pairs : List (Str × Str)
net_pairs = (codes "tag", codes "2") ∷ (codes "tag", codes "20") ∷ []

parse_props-join_example :
    parse_props (join (codes ",") (codes "e1000" ∷ renders net_pairs))
    ≡ record { head = some (codes "e1000"); pairs = insert_all net_pairs no_rows }
unfolding trim
parse_props-join_example =
    parse_props-join (codes "e1000") net_pairs refl refl refl refl
      ((refl, refl, refl, refl, refl), ((refl, refl, refl, refl, refl), tt))
