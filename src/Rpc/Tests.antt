-- ===== src/Rpc/Tests.antt =====
-- An extension for snapshots, installed and called in a cluster that serves them.
use kubevirt_webgui.Base.{
  ℕ, ◌*◌, ◌^◌, ◌≡◌, ◌⊎◌, refl, true, List, [], ◌∷◌, Option, none, some, Str, codes, str_eq,
  rsplit_once, ok, if◌then◌else◌,
}
use kubevirt_webgui.Base.Sets.{str_ord, has}
use kubevirt_webgui.Cluster.Discovery.{Discovery, serves}
use kubevirt_webgui.Rpc.{
  Session, ExtensionManifest, MethodEntry, TopicEntry, Registry, Registration, method,
  public_method, topic, lookup, install,
}
use kubevirt_webgui.Rpc.Calls.{Scans, call, subscribe}
use kubevirt_webgui.Rpc.Guards.{IsAllowed, call-IsAllowed, subscribe-IsAllowed}
use kubevirt_webgui.Rpc.Installs.{passes, install-lists}

abbrev snapshots : ExtensionManifest
snapshots = record {
  id = codes "snap";
  name = codes "Snapshots";
  version = codes "1";
  description = [];
  requires = codes "snapshot.kubevirt.io/v1beta1/vmsnapshots" ∷ [];
  methods = [];
  topics = [];
}

-- Handlers are numbers here.
abbrev entries : List (Registration ℕ)
entries =
    method (codes "snap.list") 1
    ∷ public_method (codes "snap.about") 2
    ∷ topic (codes "snap.watch") 3
    ∷ []

abbrev bare : Registry ℕ
bare = record { methods = []; topics = []; extensions = []; current = [] }

abbrev installed : Registry ℕ
unfolding install
installed = install snapshots entries bare

abbrev served_here : Discovery
served_here = record {
  groups = [];
  resources = λ v.
      if str_eq v (codes "snapshot.kubevirt.io/v1beta1")
      then some (
          record {
            name = codes "vmsnapshots";
            kind = codes "VMSnapshot";
            namespaced = true;
            verbs = [];
            short_names = [];
          }
          ∷ [])
      else none;
}

-- The cache is stale and the first scan fails to find the resource; the second finds it.
abbrev scans : Scans
scans = record {
  found = ok (record { groups = []; resources = λ _. none });
  again = ok served_here;
  now = 100 * 10 ^ 9;
  later = 200 * 10 ^ 9;
  clock = 50;
}

abbrev ann : Option Session
ann = some (record { user = codes "ann"; expires = 60 })

call-IsAllowed_example :
    (e : MethodEntry ℕ) × (lookup (codes "snap.list") installed.methods ≡ some e)
    × (e.handler ≡ 1)
    × ((e.public ≡ true)
        ⊎ IsAllowed installed ann scans e.extension
            (call installed ann scans (codes "snap.list") none).1)
unfolding call install serves str_eq rsplit_once
call-IsAllowed_example = call-IsAllowed installed ann scans (codes "snap.list") 1 none refl

subscribed_here :
    (e : TopicEntry ℕ) × (lookup (codes "snap.watch") installed.topics ≡ some e)
    × (e.handler ≡ 3)
    × IsAllowed installed ann scans e.extension
        (subscribe installed ann scans (codes "snap.watch") none).1
unfolding subscribe install serves str_eq rsplit_once
subscribed_here = subscribe-IsAllowed installed ann scans (codes "snap.watch") 3 none refl

listed_here :
    (m : ExtensionManifest) × (lookup (codes "snap") installed.extensions ≡ some m)
    × ((name : Str)
        → has name m.methods
          ≡ passes
              (λ (e : MethodEntry ℕ). str_eq e.extension (codes "snap"))
              (lookup name installed.methods))
    × ((name : Str)
        → has name m.topics
          ≡ passes
              (λ (e : TopicEntry ℕ). str_eq e.extension (codes "snap"))
              (lookup name installed.topics))
unfolding installed install
listed_here = install-lists snapshots entries bare (tt, tt)
