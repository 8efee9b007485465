-- ===== src/Rpc/Served.antt =====
-- What an extension can rely on once it was found to be available.
use kubevirt_webgui.Base.{
  ℕ, ◌≡◌, ◌⊎◌, inl, inr, refl, ◌∙◌, Bool, true, false, not, List, [], ◌∷◌, Option, none, some, Str,
  all, keep, Result, ok, err, arith, Bool-cases, Option-cases,
}
use kubevirt_webgui.Cluster.{ApiError}
use kubevirt_webgui.Cluster.Discovery.{
  Discovery, Cache, scan, recent, or_scan, get, refresh_unless_recent, serves,
}
use kubevirt_webgui.Rpc.{RpcError, Session, session_of, ExtensionManifest}
use kubevirt_webgui.Rpc.Calls.{
  Scans, missing_of, refuse_unless, recent_enough, look_again, look, ensure_required,
  ensure_manifest,
}

-- The discovery that a call used is the one that the cache holds afterwards.
abbrev pub Holds : Cache → Discovery → Type 0
Holds cache d = (at : ℕ) × (cache ≡ some (at, d))

scan-Holds :
    (found : Result ApiError Discovery) (later : ℕ) (cache : Cache) (d : Discovery)
    → (scan found later cache).0 ≡ ok d
    → Holds (scan found later cache).1 d
scan-Holds (ok f) later cache d e = (later, ground arith)
scan-Holds (err f) later cache d e = cc

recent-Holds :
    (age now : ℕ) (cache : Cache) (d : Discovery) → recent age now cache ≡ some d → Holds cache d
recent-Holds age now none d e = cc
recent-Holds age now (some (at, c)) d e = (at, ground arith)

or_scan-Holds :
    (o : Option Discovery) (found : Result ApiError Discovery) (later : ℕ) (cache : Cache)
    (d : Discovery)
    → ((c : Discovery) → o ≡ some c → Holds cache c)
    → (or_scan o found later cache).0 ≡ ok d
    → Holds (or_scan o found later cache).1 d
or_scan-Holds none found later cache d h e = scan-Holds found later cache d e
or_scan-Holds (some c) found later cache d h e = h d (ground arith)

get-Holds :
    (found : Result ApiError Discovery) (refresh : Bool) (now later : ℕ) (cache : Cache)
    (d : Discovery)
    → (get found refresh now later cache).0 ≡ ok d
    → Holds (get found refresh now later cache).1 d
unfolding get
get-Holds found true now later cache d e = scan-Holds found later cache d e
get-Holds found false now later cache d e =
    or_scan-Holds (recent _ now cache) found later cache d (λ c f. recent-Holds _ now cache c f) e

refresh-Holds :
    (found : Result ApiError Discovery) (age now later : ℕ) (cache : Cache) (d : Discovery)
    → (refresh_unless_recent found age now later cache).0 ≡ ok d
    → Holds (refresh_unless_recent found age now later cache).1 d
unfolding refresh_unless_recent
refresh-Holds found age now later cache d = elim (Option-cases (recent age now cache)) [
  | inl stale ↦ rw (stale, refresh_unless_recent) (λ e. get-Holds found true now later cache d e)
  | inr (c, fresh) ↦
      rw (fresh, refresh_unless_recent) (λ e. recent-Holds age now cache d (fresh ∙ ground arith))
]

-- Everything that the extension needs is served, by the discovery that the cache holds.
abbrev pub IsServed : ExtensionManifest → Cache → Type 0
IsServed m cache =
    (m.requires ≡ []) ⊎ (d : Discovery) × Holds cache d × (all (serves d) m.requires ≡ true)

all_of_keep :
    (d : Discovery) (rs : List Str)
    → keep (λ r. not (serves d r)) rs ≡ []
    → all (serves d) rs ≡ true
all_of_keep d [] e = refl
all_of_keep d (r ∷ rs) e = elim (Bool-cases (serves d r)) [
  | inl here ↦ ground (arith, all_of_keep d rs)
  | inr gone ↦ ground arith
]

refuse_unless-ok : (m : ExtensionManifest) (rs : List Str) → refuse_unless m rs ≡ ok tt → rs ≡ []
refuse_unless-ok m [] e = refl
refuse_unless-ok m (r ∷ rs) e = cc

look_again-IsServed :
    (m : ExtensionManifest) (found : Result ApiError Discovery) (cache : Cache)
    → ((d : Discovery) → found ≡ ok d → Holds cache d)
    → (look_again m (found, cache)).0 ≡ ok tt
    → IsServed m (look_again m (found, cache)).1
unfolding look_again
look_again-IsServed m (err f) cache h e = cc
look_again-IsServed m (ok d) cache h e =
    inr (d, h d refl, all_of_keep d m.requires (refuse_unless-ok m (missing_of d m) e))

look-IsServed :
    (m : ExtensionManifest) (c : Scans) (found : Result ApiError Discovery) (cache : Cache)
    → ((d : Discovery) → found ≡ ok d → Holds cache d)
    → (look m c (found, cache)).0 ≡ ok tt
    → IsServed m (look m c (found, cache)).1
unfolding look
look-IsServed m c (err f) cache h = λ e. cc
look-IsServed m c (ok d) cache h = elim (Bool-cases (all (serves d) m.requires)) [
  | inl served ↦ rw (served, look) (λ e. inr (d, h d refl, served))
  | inr missing ↦
      rw (missing, look)
        (look_again-IsServed m (refresh_unless_recent c.again recent_enough c.later c.later cache).0
          (refresh_unless_recent c.again recent_enough c.later c.later cache).1
          (λ f e. refresh-Holds c.again recent_enough c.later c.later cache f e))
]

ensure_required-IsServed :
    (m : ExtensionManifest) (rs : List Str) (session : Result RpcError Session) (c : Scans)
    (cache : Cache)
    → m.requires ≡ rs
    → (ensure_required m rs session c cache).0 ≡ ok tt
    → IsServed m (ensure_required m rs session c cache).1
unfolding ensure_required
ensure_required-IsServed m [] session c cache none_needed e = inl none_needed
ensure_required-IsServed m (r ∷ rs) (err f) c cache needed e = cc
ensure_required-IsServed m (r ∷ rs) (ok s) c cache needed e =
    look-IsServed m c (get c.found false c.now c.now cache).0
      (get c.found false c.now c.now cache).1 (λ d f. get-Holds c.found false c.now c.now cache d f)
      e

-- The extension is not installed, or it is served.
abbrev pub IsUsable : Option ExtensionManifest → Cache → Type 0
IsUsable o cache = (o ≡ none) ⊎ (m : ExtensionManifest) × (o ≡ some m) × IsServed m cache

pub ensure_manifest-IsUsable :
    (session : Option Session) (c : Scans) (o : Option ExtensionManifest) (cache : Cache)
    → (ensure_manifest session c o cache).0 ≡ ok tt
    → IsUsable o (ensure_manifest session c o cache).1
unfolding ensure_manifest
ensure_manifest-IsUsable session c none cache e = inl refl
ensure_manifest-IsUsable session c (some m) cache e =
    inr (m, refl, ensure_required-IsServed m m.requires (session_of session c.clock) c cache refl e)
