-- ===== src/Netagent/Counts/Tests.antt =====
-- Two rules of one interface.
use kubevirt_webgui.Base.{
  ◌%◌, ◌^◌, ◌≤◌, ◌≡◌, refl, [], ◌∷◌, ◌++◌, some, Str, codes, str_eq, split, split_once, trim,
  is_space,
}
use kubevirt_webgui.Base.Numbers.{parse_below}
use kubevirt_webgui.Netagent.Plan.{split_whitespace}
use kubevirt_webgui.Netagent.Counts.{lines, first_number, owned_rules, bridge_for, packet_counts}
use kubevirt_webgui.Netagent.Counts.Sums.{count_of, times, sum_of, packet_counts_lem}

abbrev listing : Str
listing =
    codes "Chain POSTROUTING"
    ++ (10 ∷ codes " 7 420 SNAT all /* kvw-offsubnet:lan */ to:10.0.0.1")
    ++ (10 ∷ codes " 5 300 SNAT all /* kvw-offsubnet:lan */ to:10.0.0.1")

twelve : packet_counts listing ≡ (codes "lan", 12) ∷ []
unfolding packet_counts lines split split_whitespace is_space parse_below str_eq first_number
twelve = refl

packet_counts_lem_example :
    (times (codes "lan") (packet_counts listing) ≤ 1)
    × (count_of (codes "lan") (packet_counts listing)
        ≡ sum_of (codes "lan") (lines listing) % 2 ^ 64)
packet_counts_lem_example = packet_counts_lem (codes "lan") listing

unquoted :
    owned_rules (codes "-A POSTROUTING -m comment --comment \"kvw-offsubnet:lan\" -j SNAT")
    ≡ codes "-A POSTROUTING -m comment --comment kvw-offsubnet:lan -j SNAT" ∷ []
unfolding owned_rules lines split split_once trim str_eq
unquoted = refl

bridged : bridge_for (codes "pod1a") (codes "k6t-2" ∷ codes "k6t-1a" ∷ []) ≡ some (codes "k6t-1a")
unfolding bridge_for str_eq
bridged = refl
