-- ===== src/Netagent/Agent/Tests.antt =====
-- A machine on node n1 with one interface, its status and its reports.
use Prim.Native.String.{String}
use kubevirt_webgui.Base.{
  ℕ, ◌≡◌, ◌≢◌, ◌≤◌, ◌⊎◌, join, split_once, refl, true, List, [], ◌∷◌, Option, none, some, Str,
  codes, str_eq, Result, ok, err, any, All, byte_len,
}
use kubevirt_webgui.Base.Json.{
  Json, string, object, array, end, item, empty, member, field, field_of, as_list,
}
use kubevirt_webgui.Base.Maps.{no_rows, insert}
use kubevirt_webgui.Cluster.Paths.{valid_segment}
use kubevirt_webgui.Rpc.{lookup}
use kubevirt_webgui.Rpc.Installs.{IsUnique}
use kubevirt_webgui.Netagent.Plan.{Resolved}
use kubevirt_webgui.Netagent.Annotation.{Entry}
use kubevirt_webgui.Netagent.Agent.{at, disabled, applied, failed, Look, Macs, resolve}
use kubevirt_webgui.Netagent.Agent.Status.{Outcome, Status, plain_outcome, rank, summary}
use kubevirt_webgui.Netagent.Agent.Worst.{worst_of, AtMost, summary_lem}
use kubevirt_webgui.Netagent.Agent.Passes.{
  Patch, Agent, Visit, uid, vmi_path, patch_status, report, tick,
}
use kubevirt_webgui.Netagent.Agent.Reports.{Remembers, has_status, report_lem}
use kubevirt_webgui.Netagent.Agent.Owned.{is_here, tick_lem}
use kubevirt_webgui.Netagent.Agent.Resolves.{IsResolved, resolve-IsResolved}

abbrev text : String → Json
text s = string (codes s)

abbrev nic : Json
nic = object (
    member (codes "name") (text "lan") (
      member (codes "podInterfaceName") (text "pod1a")
        (member (codes "ipAddress") (text "10") empty)))

abbrev annotations : Json
annotations = object (member (codes "kubevirt-webgui/offsubnet-nat-status") (text "{}") empty)

abbrev vmi : Json
vmi = object (
    member (codes "metadata")
      (object (
        member (codes "uid") (text "u1") (
          member (codes "namespace") (text "vms")
            (member (codes "name") (text "web") (member (codes "annotations") annotations empty)))))
      (member (codes "status")
        (object (
          member (codes "nodeName") (text "n1")
            (member (codes "interfaces") (array (item nic end)) empty)))
        empty))

abbrev entry : Entry
entry = record {
  interface = codes "lan";
  clients = codes "1/24" ∷ [];
  guest_ip = some (codes "auto");
  snat_to = codes "2";
  gateway_mac = none;
  enabled = true;
}

-- Addresses are texts that begin with a digit.
abbrev reads_ip : Str → Option ℕ
reads_ip [] = none
reads_ip (c ∷ s) = some c

abbrev shown : ℕ → Str
shown n = n ∷ []

abbrev look : Look
look = record { now = 1000; asked = err (codes "no route"); later = 1001 }

abbrev known : Macs
known = insert (codes "2") (codes "aa", 800) no_rows

abbrev lan : Resolved
lan = record {
  interface = codes "lan";
  bridge = codes "k6t-1a";
  clients = (0 ∷ b'/' ∷ 24 ∷ []) ∷ [];
  guest_ip = codes "10";
  snat_to = codes "2";
  gateway_mac = codes "aa";
}

abbrev bad : Outcome
bad = plain_outcome failed (codes "no route")

abbrev outcomes : List (Str × Outcome)
outcomes =
    (codes "lan", plain_outcome applied [])
    ∷ (codes "dmz", plain_outcome disabled [])
    ∷ (codes "lan", bad)
    ∷ []

summed : summary outcomes ≡ record {
  state = failed;
  message = codes "lan: no route";
  rows = (codes "lan", bad) ∷ (codes "dmz", plain_outcome disabled []) ∷ [];
}
unfolding summary str_eq join
summed = refl

summary_lem_example :
    IsUnique (summary outcomes).rows
    × ((interface : Str)
        → lookup interface (summary outcomes).rows ≡ worst_of interface outcomes none)
    × AtMost (rank (summary outcomes).state) outcomes
    × ((n : ℕ) → AtMost n outcomes → rank (summary outcomes).state ≤ n)
summary_lem_example = summary_lem outcomes

resolve-IsResolved_example :
    IsResolved reads_ip shown shown vmi entry (codes "k6t-1a" ∷ []) look known known lan
unfolding resolve insert field_of
resolve-IsResolved_example =
    resolve-IsResolved reads_ip shown shown vmi entry (codes "k6t-1a" ∷ []) look known lan refl

abbrev fresh_agent : Agent
fresh_agent = record { node = codes "n1"; macs = no_rows; written = no_rows; patches = [] }

abbrev status : Status
status = record { state = failed; message = codes "no route"; rows = [] }

report_lem_example :
    Remembers 5 status ((report 5 6 vmi status fresh_agent).written (uid vmi))
    × (((report 5 6 vmi status fresh_agent ≡ fresh_agent) × (has_status vmi ≡ true))
        ⊎ ((report 5 6 vmi status fresh_agent).patches
            ≡ (patch_status vmi (some (status, codes "n1", 6)) fresh_agent).patches))
report_lem_example = report_lem 5 6 vmi status fresh_agent

abbrev listed : Json
listed = object (member (codes "items") (array (item vmi end)) empty)

abbrev visits : ℕ → Visit
visits n = record { pods = []; now = 5; later = 6 }

abbrev reads_none : Str → Result Str (List Entry)
reads_none s = ok []

abbrev IsWeb : Patch → Type 0
IsWeb p = p.path ≡ codes "/apis/kubevirt.io/v1/namespaces/vms/virtualmachineinstances/web"

web_path :
    vmi_path vmi ≡ ok (codes "/apis/kubevirt.io/v1/namespaces/vms/virtualmachineinstances/web")
unfolding vmi_path field_of at str_eq byte_len split_once valid_segment
web_path = refl

tick_lem_example :
    All IsWeb (tick reads_none reads_ip shown shown (ok listed) visits fresh_agent).patches
    × ((key : Str)
        → (tick reads_none reads_ip shown shown (ok listed) visits fresh_agent).written key ≢ none
        → any (is_here (codes "n1") key) (as_list (field (codes "items") listed)) ≡ true)
unfolding field str_eq
tick_lem_example =
    tick_lem (codes "n1") IsWeb reads_none reads_ip shown shown listed visits fresh_agent refl
      ((λ here p value e. cc (web_path)), tt) tt
