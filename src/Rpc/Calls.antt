-- ===== src/Rpc/Calls.antt =====
-- The guards of a call and of a subscription (src/rpc.rs), up to the handler that runs. What scans of
-- the cluster give is an argument; the cache of them is passed on.
use kubevirt_webgui.Base.{
  ℕ, ◌*◌, ◌^◌, false, not, List, [], ◌∷◌, Option, none, some, Str, codes, all, keep, Result, ok,
  err, join, if◌then◌else◌,
}
use kubevirt_webgui.Cluster.{ApiError}
use kubevirt_webgui.Cluster.Discovery.{Discovery, Cache, get, refresh_unless_recent, serves}
use kubevirt_webgui.Rpc.{
  RpcError, not_found, of_api_error, Session, session_of, ExtensionManifest, MethodEntry,
  TopicEntry, Registry, lookup,
}

-- What a scan of the cluster gives now and when it is repeated, and the times.
pub record Scans : Type 0 where
  pub found : Result ApiError Discovery
  pub again : Result ApiError Discovery
  pub now : ℕ
  pub later : ℕ
  pub clock : ℕ

abbrev pub unavailable : ExtensionManifest → List Str → RpcError
unavailable manifest missing = record {
  status = 404;
  code = codes "ExtensionUnavailable";
  message = record {
    format = "{} is not available: this cluster does not serve {}";
    args = manifest.name ∷ join (codes ", ") missing ∷ [];
  };
}

abbrev pub missing_of : Discovery → ExtensionManifest → List Str
missing_of d manifest = keep (λ r. not (serves d r)) manifest.requires

abbrev pub refuse_unless : ExtensionManifest → List Str → Result RpcError (Unit {0})
refuse_unless manifest [] = ok tt
refuse_unless manifest (r ∷ rest) = err (unavailable manifest (r ∷ rest))

abbrev pub recent_enough : ℕ
recent_enough = 15 * 10 ^ 9

-- The second look, not more often than every 15 seconds.
unfoldable pub look_again :
    ExtensionManifest → Result ApiError Discovery × Cache → Result RpcError (Unit {0}) × Cache
look_again manifest (err e, cache) = (err (of_api_error e), cache)
look_again manifest (ok d, cache) = (refuse_unless manifest (missing_of d manifest), cache)

unfoldable pub look :
    ExtensionManifest
    → Scans
    → Result ApiError Discovery × Cache
    → Result RpcError (Unit {0}) × Cache
unfolding refresh_unless_recent look_again
look manifest c (err e, cache) = (err (of_api_error e), cache)
look manifest c (ok d, cache) =
    let second =
      look_again manifest (refresh_unless_recent c.again recent_enough c.later c.later cache) in
    if all (serves d) manifest.requires then (ok tt, cache) else second

-- What an extension needs is looked up only when it needs something, and for a signed-in user.
unfoldable pub ensure_required :
    ExtensionManifest
    → List Str
    → Result RpcError Session
    → Scans
    → Cache
    → Result RpcError (Unit {0}) × Cache
unfolding get look
ensure_required m [] session c cache = (ok tt, cache)
ensure_required m (r ∷ rest) (err e) c cache = (err e, cache)
ensure_required m (r ∷ rest) (ok s) c cache = look m c (get c.found false c.now c.now cache)

unfoldable pub ensure_manifest :
    Option Session → Scans → Option ExtensionManifest → Cache → Result RpcError (Unit {0}) × Cache
unfolding ensure_required
ensure_manifest session c none cache = (ok tt, cache)
ensure_manifest session c (some m) cache =
    ensure_required m m.requires (session_of session c.clock) c cache

module _ {H : Type 0} where
  unfoldable pub ensure_available :
      Registry H → Option Session → Scans → Str → Cache → Result RpcError (Unit {0}) × Cache
  unfolding ensure_manifest lookup
  ensure_available r session c extension cache =
      ensure_manifest session c (lookup extension r.extensions) cache

  -- The handler runs when the guards pass.
  abbrev pub if_passed : H → Result RpcError (Unit {0}) × Cache → Result RpcError H × Cache
  if_passed handler (err e, cache) = (err e, cache)
  if_passed handler (ok _, cache) = (ok handler, cache)

  abbrev pub if_signed_in :
      Result RpcError Session
      → H
      → Result RpcError (Unit {0}) × Cache
      → Cache
      → Result RpcError H × Cache
  if_signed_in (err e) handler checked cache = (err e, cache)
  if_signed_in (ok s) handler checked cache = if_passed handler checked

  -- A signed-in user first, then the extension.
  unfoldable pub guarded :
      Registry H → Option Session → Scans → Str → H → Cache → Result RpcError H × Cache
  unfolding ensure_available
  guarded r session c extension handler cache =
      if_signed_in (session_of session c.clock) handler
        (ensure_available r session c extension cache) cache

  unfoldable pub call_entry :
      Registry H
      → Option Session
      → Scans
      → Str
      → Option (MethodEntry H)
      → Cache
      → Result RpcError H × Cache
  unfolding guarded
  call_entry r session c name none cache =
      (err (not_found (record { format = "no such method: {method}"; args = name ∷ [] })), cache)
  call_entry r session c name (some entry) cache =
      if entry.public
      then (ok entry.handler, cache)
      else guarded r session c entry.extension entry.handler cache

  unfoldable pub call :
      Registry H → Option Session → Scans → Str → Cache → Result RpcError H × Cache
  unfolding call_entry lookup
  call r session c name cache = call_entry r session c name (lookup name r.methods) cache

  unfoldable pub subscribe_entry :
      Registry H
      → Option Session
      → Scans
      → Str
      → Option (TopicEntry H)
      → Cache
      → Result RpcError H × Cache
  unfolding guarded
  subscribe_entry r session c name none cache =
      (err (not_found (record { format = "no such topic: {topic}"; args = name ∷ [] })), cache)
  subscribe_entry r session c name (some entry) cache =
      guarded r session c entry.extension entry.handler cache

  unfoldable pub subscribe :
      Registry H → Option Session → Scans → Str → Cache → Result RpcError H × Cache
  unfolding subscribe_entry lookup
  subscribe r session c name cache = subscribe_entry r session c name (lookup name r.topics) cache
