-- ===== src/Netagent/Plan.antt =====
-- The commands that bring one launcher pod from what it has to what is wanted
-- (src/netagent/plan.rs). A command is planned as an action and then written as its argv.
pub mod Kernel
pub mod Rules
pub mod Tables
pub mod Neighbours
pub mod Phases
pub mod Converges
pub mod Settled
mod Tests
use kubevirt_webgui.Base.{
  ℕ, Bool, true, false, not, ◌&&◌, List, [], ◌∷◌, ◌++◌, map, Str, codes, starts_with, is_empty,
  is_space, to_lower, str_eq, any, if◌then◌else◌,
}
use kubevirt_webgui.Base.Sets.{Ord, str_ord, triple_ord, insert, of_list, has, difference}

abbrev pub Triple : Type 0
Triple = Str × Str × Str

-- An entry with everything `auto` resolved, for one pod.
pub record Resolved : Type 0 where
  pub interface : Str
  pub bridge : Str
  pub clients : List Str
  pub guest_ip : Str
  pub snat_to : Str
  pub gateway_mac : Str

-- What a launcher pod has now: its rules, duplicates kept, and the sets of routes
-- `(destination, gateway, device)` and neighbours `(address, mac, device)`.
pub record Current : Type 0 where
  pub snat_rules : List Str
  pub routes : List Triple
  pub neighbours : List Triple

abbrev pub comment_prefix : Str
comment_prefix = codes "kvw-offsubnet:"

unfoldable pub snat_rule : Resolved → Str → Str
snat_rule r client =
    codes "-A POSTROUTING -s "
    ++ (client
        ++ (codes " -d "
            ++ (r.guest_ip
                ++ (codes "/32 -m comment --comment "
                    ++ (comment_prefix
                        ++ (r.interface ++ (codes " -j SNAT --to-source " ++ r.snat_to)))))))

unfoldable pub rules_of : Resolved → List Str → List Str
unfolding snat_rule
rules_of r [] = []
rules_of r (c ∷ cs) = snat_rule r c ∷ rules_of r cs

unfoldable pub routes_of : Resolved → List Str → List Triple
routes_of r [] = []
routes_of r (c ∷ cs) = (c, r.snat_to, r.bridge) ∷ routes_of r cs

unfoldable pub all_rules : List Resolved → List Str
all_rules [] = []
all_rules (r ∷ rs) = rules_of r r.clients ++ all_rules rs

unfoldable pub all_routes : List Resolved → List Triple
all_routes [] = []
all_routes (r ∷ rs) = routes_of r r.clients ++ all_routes rs

unfoldable pub all_neighbours : List Resolved → List Triple
all_neighbours [] = []
all_neighbours (r ∷ rs) = (r.snat_to, to_lower r.gateway_mac, r.bridge) ∷ all_neighbours rs

unfoldable pub want_rules : List Resolved → List Str
unfolding all_rules rules_of of_list
want_rules desired = of_list (all_rules desired)

unfoldable pub want_routes : List Resolved → List Triple
unfolding all_routes routes_of of_list
want_routes desired = of_list (all_routes desired)

unfoldable pub want_neighbours : List Resolved → List Triple
unfolding all_neighbours of_list
want_neighbours desired = of_list (all_neighbours desired)

pub data Action : Type 0 where
  del_rule add_rule : Str → Action
  del_route replace_route : Triple → Action
  del_neighbour : Str → Str → Action
  replace_neighbour : Triple → Action

-- Each wanted rule may stay once; anything else goes: the rules to remove, and those kept.
unfoldable pub drop_rules : List Str → List Str → List Str → List Str × List Str
drop_rules want [] kept = ([], kept)
drop_rules want (r ∷ rs) kept =
    let stays = has r want && not (has r kept) in
    let (out, all_kept) = drop_rules want rs (if stays then insert r kept else kept) in
    (if stays then out else r ∷ out, all_kept)

-- Whether a neighbour is wanted at this address and device, with whatever MAC.
unfoldable pub is_replaced : List Triple → Triple → Bool
is_replaced want (addr, _, dev) = any (λ (w : Triple). str_eq w.0 addr && str_eq w.2 dev) want

unfoldable pub stale_neighbours : List Triple → List Triple → List Action
stale_neighbours want [] = []
stale_neighbours want ((addr, mac, dev) ∷ rest) =
    let more = stale_neighbours want rest in
    if is_replaced want (addr, mac, dev) then more else del_neighbour addr dev ∷ more

-- The plan for the sets of wanted rules, routes and neighbours. Removals come first.
unfoldable pub plan : List Str → List Triple → List Triple → Current → List Action
unfolding drop_rules stale_neighbours is_replaced difference
plan rules routes neighbours current =
    let (out, kept) = drop_rules rules current.snat_rules [] in
    map del_rule out
    ++ (map del_route (difference current.routes routes)
        ++ (stale_neighbours neighbours (difference current.neighbours neighbours)
            ++ (map replace_neighbour (difference neighbours current.neighbours)
                ++ (map replace_route (difference routes current.routes)
                    ++ map add_rule (difference rules kept)))))

unfoldable pub actions : List Resolved → Current → List Action
unfolding want_rules want_routes want_neighbours plan
actions desired current =
    plan (want_rules desired) (want_routes desired) (want_neighbours desired) current

-- `split_whitespace`: the words, each gathered from its end.
abbrev pub push_word : ℕ → List Str → Bool → List Str
push_word c ws false = (c ∷ []) ∷ ws
push_word c [] true = (c ∷ []) ∷ []
push_word c (w ∷ ws) true = (c ∷ w) ∷ ws

abbrev starts_word : Str → Bool
starts_word [] = false
starts_word (c ∷ s) = not (is_space c)

unfoldable pub split_whitespace : Str → List Str
unfolding is_space
split_whitespace [] = []
split_whitespace (c ∷ s) =
    let rest = split_whitespace s in if is_space c then rest else push_word c rest (starts_word s)

abbrev drop_two : Str → Str
drop_two (a ∷ b ∷ rest) = rest
drop_two s = []

-- `replacen("-A ", "-D ", 1)`.
unfoldable pub delete_form : Str → Str
delete_form [] = []
delete_form (c ∷ s) =
    let rest = delete_form s in
    if starts_with (codes "-A ") (c ∷ s) then codes "-D " ++ drop_two s else c ∷ rest

abbrev iptables : List Str
iptables = codes "iptables" ∷ codes "-t" ∷ codes "nat" ∷ []

unfoldable pub argv : Action → List Str
unfolding split_whitespace delete_form
argv (del_rule rule) = iptables ++ split_whitespace (delete_form rule)
argv (add_rule rule) = iptables ++ split_whitespace rule
argv (del_route (dst, via, dev)) =
    codes "ip"
    ∷ codes "route"
    ∷ codes "del"
    ∷ dst
    ∷ codes "via"
    ∷ via
    ∷ codes "dev"
    ∷ dev
    ∷ codes "proto"
    ∷ codes "252"
    ∷ []
argv (replace_route (dst, via, dev)) =
    codes "ip"
    ∷ codes "route"
    ∷ codes "replace"
    ∷ dst
    ∷ codes "via"
    ∷ via
    ∷ codes "dev"
    ∷ dev
    ∷ codes "onlink"
    ∷ codes "proto"
    ∷ codes "252"
    ∷ []
argv (del_neighbour addr dev) =
    codes "ip" ∷ codes "neigh" ∷ codes "del" ∷ addr ∷ codes "dev" ∷ dev ∷ []
argv (replace_neighbour (addr, mac, dev)) =
    codes "ip"
    ∷ codes "neigh"
    ∷ codes "replace"
    ∷ addr
    ∷ codes "lladdr"
    ∷ mac
    ∷ codes "dev"
    ∷ dev
    ∷ codes "nud"
    ∷ codes "permanent"
    ∷ []

-- The commands that turn `current` into what `desired` describes.
unfoldable pub commands : List Resolved → Current → List (List Str)
unfolding actions argv
commands desired current = map argv (actions desired current)
