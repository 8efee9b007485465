-- ===== src/Netagent/Plan/Kernel.antt =====
-- What the agent relies on of `iptables` and `ip` in the pod's network namespace: how each command
-- changes the rules, the routes by destination, and the neighbours by address and device.
use kubevirt_webgui.Base.{
  ℕ, ◌+◌, ◌-◌, ◌≡◌, Bool, not, ◌&&◌, ◌||◌, List, [], ◌∷◌, Str, codes, str_eq, join, if◌then◌else◌,
}
use kubevirt_webgui.Base.Sets.{str_ord, triple_ord, has, same, count}
use kubevirt_webgui.Netagent.Plan.{Triple, Current}

abbrev pub one_if : Bool → ℕ
one_if b = if b then 1 else 0

abbrev pub same_key : Triple → Triple → Bool
same_key s t = str_eq s.0 t.0 && str_eq s.2 t.2

abbrev pub rule_words : Str → List Str → List Str
rule_words flag words = codes "iptables" ∷ codes "-t" ∷ codes "nat" ∷ flag ∷ words

abbrev pub listed_rule : List Str → Str
listed_rule words = join (codes " ") (codes "-A" ∷ words)

abbrev pub del_route_words : Triple → List Str
del_route_words (dst, via, dev) =
    codes "ip"
    ∷ codes "route"
    ∷ codes "del"
    ∷ dst
    ∷ codes "via"
    ∷ via
    ∷ codes "dev"
    ∷ dev
    ∷ codes "proto"
    ∷ codes "252"
    ∷ []

abbrev pub replace_route_words : Triple → List Str
replace_route_words (dst, via, dev) =
    codes "ip"
    ∷ codes "route"
    ∷ codes "replace"
    ∷ dst
    ∷ codes "via"
    ∷ via
    ∷ codes "dev"
    ∷ dev
    ∷ codes "onlink"
    ∷ codes "proto"
    ∷ codes "252"
    ∷ []

abbrev pub del_neighbour_words : Str → Str → List Str
del_neighbour_words addr dev =
    codes "ip" ∷ codes "neigh" ∷ codes "del" ∷ addr ∷ codes "dev" ∷ dev ∷ []

abbrev pub replace_neighbour_words : Triple → List Str
replace_neighbour_words (addr, mac, dev) =
    codes "ip"
    ∷ codes "neigh"
    ∷ codes "replace"
    ∷ addr
    ∷ codes "lladdr"
    ∷ mac
    ∷ codes "dev"
    ∷ dev
    ∷ codes "nud"
    ∷ codes "permanent"
    ∷ []

pub record Host : Type 0 where
  pub exec : List Str → Current → Current
  -- `-D` removes one rule that is listed so, `-A` appends it.
  pub del_rule :
      (words : List Str) (s : Current) (x : Str)
      → count x (exec (rule_words (codes "-D") words) s).snat_rules
        ≡ count x s.snat_rules - one_if (same (listed_rule words) x)
  pub add_rule :
      (words : List Str) (s : Current) (x : Str)
      → count x (exec (rule_words (codes "-A") words) s).snat_rules
        ≡ count x s.snat_rules + one_if (same (listed_rule words) x)
  pub rule_rest :
      (words : List Str) (s : Current)
      → ((exec (codes "iptables" ∷ words) s).routes ≡ s.routes)
        × ((exec (codes "iptables" ∷ words) s).neighbours ≡ s.neighbours)
  pub del_route :
      (t : Triple) (s : Current) (x : Triple)
      → has x (exec (del_route_words t) s).routes ≡ (has x s.routes && not (same t x))
  pub del_route_rest :
      (t : Triple) (s : Current)
      → ((exec (del_route_words t) s).snat_rules ≡ s.snat_rules)
        × ((exec (del_route_words t) s).neighbours ≡ s.neighbours)
  -- One route for each destination.
  pub replace_route :
      (t : Triple) (s : Current) (x : Triple)
      → has x (exec (replace_route_words t) s).routes
        ≡ (same t x || has x s.routes && not (str_eq t.0 x.0))
  pub replace_route_rest :
      (t : Triple) (s : Current)
      → ((exec (replace_route_words t) s).snat_rules ≡ s.snat_rules)
        × ((exec (replace_route_words t) s).neighbours ≡ s.neighbours)
  pub del_neighbour :
      (addr dev : Str) (s : Current) (x : Triple)
      → has x (exec (del_neighbour_words addr dev) s).neighbours
        ≡ (has x s.neighbours && not (str_eq addr x.0 && str_eq dev x.2))
  pub del_neighbour_rest :
      (addr dev : Str) (s : Current)
      → ((exec (del_neighbour_words addr dev) s).snat_rules ≡ s.snat_rules)
        × ((exec (del_neighbour_words addr dev) s).routes ≡ s.routes)
  -- One neighbour for each address and device.
  pub replace_neighbour :
      (t : Triple) (s : Current) (x : Triple)
      → has x (exec (replace_neighbour_words t) s).neighbours
        ≡ (same t x || has x s.neighbours && not (same_key t x))
  pub replace_neighbour_rest :
      (t : Triple) (s : Current)
      → ((exec (replace_neighbour_words t) s).snat_rules ≡ s.snat_rules)
        × ((exec (replace_neighbour_words t) s).routes ≡ s.routes)

-- The commands run one after the other.
unfoldable pub run_all : Host → List (List Str) → Current → Current
run_all h [] s = s
run_all h (c ∷ cs) s = run_all h cs (h.exec c s)
