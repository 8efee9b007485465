-- ===== src/Netagent/Agent/Passes.antt =====
-- A pass of the agent over the machines of the cluster (`tick`, `reconcile`, `report` and
-- `patch_status` in src/netagent/mod.rs).
use Prim.Native.String.{String}
use native.Mathlib.Decide.{ℕ_discrete}
use kubevirt_webgui.Base.{
  ℕ, suc, ◌-◌, Bool, true, false, not, ◌&&◌, ◌||◌, List, [], ◌∷◌, ◌++◌, map, Option, none, some,
  Str, codes, str_eq, any, ltb, if◌then◌else◌, Result, ok, err,
}
use kubevirt_webgui.Base.Json.{Json, bool, field, field_of, as_str, as_list}
use kubevirt_webgui.Base.Maps.{Table, insert}
use kubevirt_webgui.Cluster.{ApiError}
use kubevirt_webgui.Cluster.Paths.{path}
use kubevirt_webgui.Cluster.Paths.Build.{new, ns, named}
use kubevirt_webgui.Netagent.Plan.{Resolved}
use kubevirt_webgui.Netagent.Annotation.{Entry, parse}
use kubevirt_webgui.Netagent.Agent.{State, failed, Macs, at, str_at}
use kubevirt_webgui.Netagent.Agent.Status.{Detail, Outcome, Status, Pod, apply}

-- A status without its packet counters.
abbrev pub Stable : Type 0
Stable = State × Str × List (Str × State × Str × Option Resolved)

pub State-discrete : Discrete State
State-discrete = hlevel

pub Resolved-discrete : Discrete Resolved
Resolved-discrete = hlevel ℕ_discrete

pub Stable-discrete : Discrete Stable
Stable-discrete = hlevel (ℕ_discrete, State-discrete, Resolved-discrete)

abbrev pub Counters : Type 0
Counters = List (Option ℕ)

pub Counters-discrete : Discrete Counters
Counters-discrete = hlevel ℕ_discrete

-- Whether two values are one.
abbrev pub same : {A : Type 0} → Discrete A → A → A → Bool
same d a b = elim (d a b) [ yes _ ↦ true | no _ ↦ false ]

abbrev pub resolved_of : Option Detail → Option Resolved
resolved_of none = none
resolved_of (some d) = some d.resolved

abbrev pub packets_in : Option Detail → Option ℕ
packets_in none = none
packets_in (some d) = some d.packets

unfoldable pub stable : Status → Stable
stable status = (
  status.state,
  status.message,
  map (λ (row : Str × Outcome). (row.0, row.1.state, row.1.message, resolved_of row.1.detail))
      status.rows,
)

unfoldable pub counters : Status → Counters
counters status = map (λ (row : Str × Outcome). packets_in row.1.detail) status.rows

-- How often a status whose only change is its counters is rewritten, in seconds.
abbrev pub counter_refresh : ℕ
counter_refresh = 60

-- A status that is written, with the node and the time; none takes the annotation away.
pub record Patch : Type 0 where
  pub path : Str
  pub value : Option (Status × Str × ℕ)

-- `written` is what was last written for each uid and when; `patches` what was sent, newest first.
pub record Agent : Type 0 where
  pub node : Str
  pub macs : Macs
  pub written : Table (Stable × Counters × ℕ)
  pub patches : List Patch

abbrev pub uid : Json → Str
uid vmi = str_at (codes "metadata" ∷ codes "uid" ∷ []) (some vmi)

abbrev pub annotation : String → Json → Option Json
annotation key vmi =
    field_of (codes key) (at (codes "metadata" ∷ codes "annotations" ∷ []) (some vmi))

unfoldable pub vmi_path : Json → Result ApiError Str
unfolding path new ns named str_at
vmi_path vmi = path (
    named
      (ns (new (codes "kubevirt.io/v1") (codes "virtualmachineinstances"))
        (str_at (codes "metadata" ∷ codes "namespace" ∷ []) (some vmi)))
      (str_at (codes "metadata" ∷ codes "name" ∷ []) (some vmi)))

-- What the API server answers is only logged.
unfoldable pub patch_status : Json → Option (Status × Str × ℕ) → Agent → Agent
unfolding vmi_path
patch_status vmi value agent = elim (vmi_path vmi) [
  | err _ ↦ agent
  | ok p ↦ record agent { patches = record { path = p; value = value } ∷ agent.patches }
]

unfoldable pub is_current : ℕ → Bool → Stable → Counters → Option (Stable × Counters × ℕ) → Bool
unfolding Stable-discrete Counters-discrete
is_current now on_vmi status packets none = false
is_current now on_vmi status packets (some (last, last_packets, written)) =
    same Stable-discrete last status
    && (same Counters-discrete last_packets packets || ltb (now - written) counter_refresh)
    && on_vmi

abbrev pub is_some : Option Str → Bool
is_some none = false
is_some (some s) = true

-- Write a status unless nothing but the counters changed recently.
unfoldable pub report : ℕ → ℕ → Json → Status → Agent → Agent
unfolding is_current stable counters patch_status insert field_of
report now later vmi status agent =
    let on_vmi = is_some (as_str (annotation "kubevirt-webgui/offsubnet-nat-status" vmi)) in
    if is_current now on_vmi (stable status) (counters status) (agent.written (uid vmi))
    then agent
    else record (patch_status vmi (some (status, agent.node, later)) agent) {
      written = insert (uid vmi) (stable status, counters status, later) agent.written;
    }

-- What the host and the clock give while one machine is looked at.
pub record Visit : Type 0 where
  pub pods : List Pod
  pub now : ℕ
  pub later : ℕ

abbrev pub is_there : Option Json → Bool
is_there none = false
is_there (some v) = true

abbrev pub is_true : Option Json → Bool
is_true (some (bool b)) = b
is_true _ = false

-- Whether the machine runs on the node.
unfoldable pub on_node : Str → Json → Bool
unfolding str_at str_eq
on_node node vmi = str_eq (str_at (codes "status" ∷ codes "nodeName" ∷ []) (some vmi)) node

unfoldable pub migrating_here : Str → Json → Bool
unfolding str_at at str_eq
migrating_here node vmi =
    str_eq (str_at (codes "status" ∷ codes "migrationState" ∷ codes "targetNode" ∷ []) (some vmi))
      node
    && not
        (is_true (at (codes "status" ∷ codes "migrationState" ∷ codes "completed" ∷ []) (some vmi)))

module _ (read : Str → Result Str (List Entry)) (parse_ip : Str → Option ℕ) (print_ip : ℕ → Str)
    (show : ℕ → Str) where
  unfoldable pub status_for : Str → Json → List Pod → Result Str (List Entry) → Macs → Status × Macs
  unfolding apply
  status_for node vmi pods (err e) macs = (record { state = failed; message = e; rows = [] }, macs)
  status_for node vmi pods (ok entries) macs =
      apply parse_ip print_ip show node vmi entries pods macs

  unfoldable pub reconcile_spec : Json → Bool → Visit → Option Str → Agent → Agent
  unfolding patch_status field_of parse status_for report
  reconcile_spec vmi owner visit none agent =
      if is_there (annotation "kubevirt-webgui/offsubnet-nat-status" vmi) && owner
      then patch_status vmi none agent
      else agent
  reconcile_spec vmi owner visit (some spec) agent =
      let (status, macs) =
        status_for agent.node vmi visit.pods (parse parse_ip print_ip show read spec) agent.macs in
      let looked = record agent { macs = macs } in
      if owner then report visit.now visit.later vmi status looked else looked

  unfoldable pub reconcile : Json → Bool → Visit → Agent → Agent
  unfolding reconcile_spec
  reconcile vmi owner visit agent =
      reconcile_spec vmi owner visit (as_str (annotation "kubevirt-webgui/offsubnet-nat" vmi)) agent

  -- The machines of a list, one after the other, with the uids of those that are here.
  unfoldable pub visit_all : (ℕ → Visit) → ℕ → List Json → List Str → Agent → List Str × Agent
  unfolding reconcile on_node migrating_here
  visit_all visits n [] live agent = (live, agent)
  visit_all visits n (vmi ∷ rest) live agent =
      let here = on_node agent.node vmi in
      let is_mine = here || migrating_here agent.node vmi in
      visit_all visits (suc n) rest (if is_mine then live ++ uid vmi ∷ [] else live)
        (if is_mine then reconcile vmi here (visits n) agent else agent)

  unfoldable pub forget : List Str × Agent → Agent
  unfolding str_eq
  forget (live, agent) = record agent {
    written = λ key. if any (λ u. str_eq u key) live then agent.written key else none;
  }

  unfoldable pub tick : Result Str Json → (ℕ → Visit) → Agent → Agent
  unfolding visit_all forget field
  tick (err e) visits agent = agent
  tick (ok list) visits agent =
      forget (visit_all visits 0 (as_list (field (codes "items") list)) [] agent)
