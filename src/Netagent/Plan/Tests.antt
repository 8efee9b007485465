-- ===== src/Netagent/Plan/Tests.antt =====
-- A kernel that follows the documented behaviour, and one pass of the agent in it
-- (the tests of src/netagent/plan.rs).
use kubevirt_webgui.Base.{
  ◌+◌, ◌-◌, ◌≡◌, refl, Bool, not, ◌&&◌, ◌||◌, List, [], ◌∷◌, ◌++◌, Str, codes, str_eq, arith,
  if◌then◌else◌, join, keep, length, join, is_space, drop_first,
}
use kubevirt_webgui.Base.Sets.{
  str_cmp, triple_cmp, str_ord, triple_ord, has, has-cons, same, same_iff, count, has-nil,
}
use kubevirt_webgui.Netagent.Plan.{
  Triple, Resolved, Current, snat_rule, split_whitespace, commands, want_rules, want_routes,
  want_neighbours,
}
use kubevirt_webgui.Netagent.Plan.Kernel.{Host, run_all, one_if, same_key, listed_rule}
use kubevirt_webgui.Netagent.Plan.Rules.{IsRule}
use kubevirt_webgui.Netagent.Plan.Tables.{IsKeyed}
use kubevirt_webgui.Netagent.Plan.Converges.{
  IsApplied, IsRegular, same_destination, commands-IsApplied,
}
use kubevirt_webgui.Netagent.Plan.Settled.{commands-twice}

remove_one : Str → List Str → List Str
remove_one x [] = []
remove_one x (y ∷ ys) = let rest = remove_one x ys in if same x y then ys else y ∷ rest

count-remove_one :
    (x y : Str) (l : List Str) → count y (remove_one x l) ≡ count y l - one_if (same x y)
unfolding count remove_one
count-remove_one x y [] = ground arith
count-remove_one x y (z ∷ l) =
    ground (arith, count-remove_one x y l, same_iff x z, same_iff x y, same_iff z y)

count-append_one :
    (x y : Str) (l : List Str) → count y (l ++ (x ∷ [])) ≡ count y l + one_if (same x y)
unfolding count
count-append_one x y [] = ground arith
count-append_one x y (z ∷ l) = ground (arith, count-append_one x y l)

-- A table without the rows that a test finds.
without : (Triple → Bool) → List Triple → List Triple
without test = keep (λ t. not (test t))

has-without :
    (test : Triple → Bool) (x : Triple) (l : List Triple)
    → has x (without test l) ≡ (has x l && not (test x))
unfolding has without
has-without test x [] = refl
has-without test x (t ∷ l) = ground (arith, has-without test x l, same_iff t x)

has_put :
    {b : Bool} (t x : Triple) (l : List Triple) → has x l ≡ b → has x (t ∷ l) ≡ (same t x || b)
has_put t x l e = rw (has-cons x t l, e) refl

abbrev rules_after : List Str → List Str → List Str
rules_after (p ∷ _ ∷ _ ∷ flag ∷ words) l =
    if str_eq p (codes "iptables")
    then if str_eq flag (codes "-D")
      then remove_one (listed_rule words) l
      else l ++ (listed_rule words ∷ [])
    else l
rules_after _ l = l

abbrev route_change : List Str → List Triple → List Triple
route_change (obj ∷ verb ∷ dst ∷ _ ∷ via ∷ _ ∷ dev ∷ _) l =
    if str_eq obj (codes "route")
    then if str_eq verb (codes "del")
      then without (λ t. same (dst, via, dev) t) l
      else (dst, via, dev) ∷ without (λ t. str_eq dst t.0) l
    else l
route_change _ l = l

abbrev neighbour_change : List Str → List Triple → List Triple
neighbour_change (obj ∷ verb ∷ addr ∷ _ ∷ a ∷ rest) l =
    if str_eq obj (codes "neigh")
    then if str_eq verb (codes "del")
      then without (λ t. str_eq addr t.0 && str_eq a t.2) l
      else set_neighbour addr a rest l
    else l
  where
    set_neighbour : Str → Str → List Str → List Triple → List Triple
    set_neighbour addr mac (_ ∷ dev ∷ _) l =
        (addr, mac, dev) ∷ without (λ t. str_eq addr t.0 && str_eq dev t.2) l
    set_neighbour addr mac _ l = l
neighbour_change _ l = l

abbrev unless_iptables :
    (List Str → List Triple → List Triple) → List Str → List Triple → List Triple
unless_iptables change [] l = l
unless_iptables change (p ∷ words) l = if str_eq p (codes "iptables") then l else change words l

pod_exec : List Str → Current → Current
pod_exec words s = record {
  snat_rules = rules_after words s.snat_rules;
  routes = unless_iptables route_change words s.routes;
  neighbours = unless_iptables neighbour_change words s.neighbours;
}

abbrev pod : Host
unfolding pod_exec str_eq
pod = record {
  exec = pod_exec;
  del_rule = λ words s x. count-remove_one (listed_rule words) x s.snat_rules;
  add_rule = λ words s x. count-append_one (listed_rule words) x s.snat_rules;
  rule_rest = λ words s. (refl, refl);
  del_route = λ t s x. has-without (same t) x s.routes;
  del_route_rest = λ t s. (refl, refl);
  replace_route = λ t s x.
      has_put t x (without (λ u. str_eq t.0 u.0) s.routes)
        (has-without (λ u. str_eq t.0 u.0) x s.routes);
  replace_route_rest = λ t s. (refl, refl);
  del_neighbour =
      λ addr dev s x. has-without (λ t. str_eq addr t.0 && str_eq dev t.2) x s.neighbours;
  del_neighbour_rest = λ addr dev s. (refl, refl);
  replace_neighbour = λ t s x.
      has_put t x (without (same_key t) s.neighbours) (has-without (same_key t) x s.neighbours);
  replace_neighbour_rest = λ t s. (refl, refl);
}

abbrev lan : Resolved
lan = record {
  interface = codes "lan";
  bridge = codes "k6t-094a367b026";
  clients = codes "10.1.0.0/24" ∷ [];
  guest_ip = codes "10.0.5.120";
  snat_to = codes "10.0.0.1";
  gateway_mac = codes "AA:BB:CC:00:11:22";
}

-- The rule twice, a route that is wanted no more, and an old MAC.
abbrev before : Current
before = record {
  snat_rules = snat_rule lan (codes "10.1.0.0/24") ∷ snat_rule lan (codes "10.1.0.0/24") ∷ [];
  routes = (codes "10.2.0.0/24", codes "10.0.0.1", codes "k6t-094a367b026") ∷ [];
  neighbours = (codes "10.0.0.1", codes "00:00:00:00:00:01", codes "k6t-094a367b026") ∷ [];
}

before_test : length (commands (lan ∷ []) before) ≡ 4
unfolding commands str_cmp triple_cmp str_eq
before_test = refl

IsKeyed-single : (key : Triple → Triple → Bool) (r : Triple) → IsKeyed key (r ∷ [])
IsKeyed-single key r t u p q k = ground (
  arith,
  has-cons t r [],
  has-cons u r [],
  has-nil t,
  has-nil u,
  (same_iff r t).0,
  (same_iff r u).0,
)

snat_rule-IsRule : IsRule (snat_rule lan (codes "10.1.0.0/24"))
unfolding snat_rule split_whitespace is_space join
snat_rule-IsRule =
    (drop_first (drop_first (drop_first (snat_rule lan (codes "10.1.0.0/24")))), refl, refl)

before-IsRegular : IsRegular (lan ∷ []) before
unfolding want_rules want_routes want_neighbours
before-IsRegular = record {
  listed = (snat_rule-IsRule, (snat_rule-IsRule, tt));
  wanted = (snat_rule-IsRule, tt);
  gateways =
      IsKeyed-single same_destination
        (codes "10.1.0.0/24", codes "10.0.0.1", codes "k6t-094a367b026");
  macs =
      IsKeyed-single same_key
        (codes "10.0.0.1", codes "aa:bb:cc:00:11:22", codes "k6t-094a367b026");
  current_macs =
      IsKeyed-single same_key
        (codes "10.0.0.1", codes "00:00:00:00:00:01", codes "k6t-094a367b026");
}

commands-IsApplied_example : IsApplied (lan ∷ []) (run_all pod (commands (lan ∷ []) before) before)
commands-IsApplied_example = commands-IsApplied pod (lan ∷ []) before before-IsRegular

commands-twice_example : commands (lan ∷ []) (run_all pod (commands (lan ∷ []) before) before) ≡ []
commands-twice_example = commands-twice pod (lan ∷ []) before before-IsRegular
