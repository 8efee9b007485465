-- ===== src/Cluster/Discovery.antt =====
-- What the cluster serves (src/cluster/discovery.rs), and the cache of it. The versions of the server
-- are left out: they are only shown. What the API server answers to a scan is an argument.
use kubevirt_webgui.Base.{
  ℕ, ◌-◌, ◌*◌, ◌^◌, Bool, true, false, ◌||◌, List, [], ◌∷◌, Option, none, some, Str, codes, str_eq,
  any, Result, ok, err, has_char, split, rsplit_once, ltb, if◌then◌else◌,
}
use kubevirt_webgui.Base.Maps.{Table}
use kubevirt_webgui.Cluster.{ApiError}

pub record ApiResource : Type 0 where
  pub name : Str
  pub kind : Str
  pub namespaced : Bool
  pub verbs : List Str
  pub short_names : List Str

pub record ApiGroup : Type 0 where
  pub name : Str
  pub preferred_version : Str
  pub versions : List Str

pub record Discovery : Type 0 where
  pub groups : List ApiGroup
  pub resources : Table (List ApiResource)

abbrev named_in : Str → Option (List ApiResource) → Bool
named_in resource none = false
named_in resource (some rs) = any (λ (r : ApiResource). str_eq r.name resource) rs

unfoldable pub has : Discovery → Str → Str → Bool
has d api_version resource = named_in resource (d.resources api_version)

unfoldable pub has_group : Discovery → Str → Bool
has_group d group = any (λ (g : ApiGroup). str_eq g.name group) d.groups

abbrev first_part : Str → List Str → Str
first_part whole [] = whole
first_part whole (part ∷ rest) = part

abbrev served : Discovery → Str → Option (Str × Str) → Bool
unfolding has has_group
served d requirement none = has_group d (first_part requirement (split b'/' requirement))
served d requirement (some (api_version, resource)) =
    if has_char b'/' api_version || str_eq api_version (codes "v1")
    then has d api_version resource
    else has_group d (first_part requirement (split b'/' requirement))

-- A requirement names a resource of a group and version or of the core group, or else a group.
unfoldable pub serves : Discovery → Str → Bool
unfolding served
serves d requirement = served d requirement (rsplit_once b'/' requirement)

-- When it was found, and what. Times are in nanoseconds.
abbrev pub Cache : Type 0
Cache = Option (ℕ × Discovery)

abbrev pub fresh_for : ℕ
fresh_for = 60 * 10 ^ 9

-- A scan that gives `found` at the time `later`.
abbrev pub scan : Result ApiError Discovery → ℕ → Cache → Result ApiError Discovery × Cache
scan (ok d) later cache = (ok d, some (later, d))
scan (err e) later cache = (err e, cache)

-- What is cached, when it is younger than this.
abbrev pub recent : ℕ → ℕ → Cache → Option Discovery
recent age now none = none
recent age now (some (at, d)) = if ltb (now - at) age then some d else none

abbrev pub or_scan :
    Option Discovery → Result ApiError Discovery → ℕ → Cache → Result ApiError Discovery × Cache
or_scan (some d) found later cache = (ok d, cache)
or_scan none found later cache = scan found later cache

-- `get` without a forced refresh, and with one.
unfoldable pub get :
    Result ApiError Discovery → Bool → ℕ → ℕ → Cache → Result ApiError Discovery × Cache
get found refresh now later cache =
    or_scan (if refresh then none else recent fresh_for now cache) found later cache

unfoldable pub refresh_unless_recent :
    Result ApiError Discovery → ℕ → ℕ → ℕ → Cache → Result ApiError Discovery × Cache
unfolding get
refresh_unless_recent found min_age now later cache = elim (recent min_age now cache) [
  | none ↦ get found true now later cache
  | some d ↦ (ok d, cache)
]
