-- ===== src/Rpc/Guards.antt =====
-- What holds when a handler runs.
use kubevirt_webgui.Base.{
  ℕ, ◌≡◌, ◌<◌, ◌⊎◌, inl, inr, refl, subst, sym, Bool, true, false, Option, none, some, Str, Result,
  ok, err, arith, if◌then◌else◌,
}
use kubevirt_webgui.Cluster.Discovery.{Cache}
use kubevirt_webgui.Rpc.{RpcError, Session, session_of, MethodEntry, TopicEntry, Registry, lookup}
use kubevirt_webgui.Rpc.Calls.{
  Scans, ensure_available, if_passed, if_signed_in, guarded, call_entry, call, subscribe_entry,
  subscribe,
}
use kubevirt_webgui.Rpc.Served.{IsUsable, ensure_manifest-IsUsable}

-- Whose session it is, and that it has not expired.
abbrev pub IsLive : Option Session → ℕ → Type 0
IsLive session now = (s : Session) × (session ≡ some s) × (now < s.expires)

session_of-IsLive :
    (session : Option Session) (now : ℕ) (s : Session)
    → session_of session now ≡ ok s
    → IsLive session now
session_of-IsLive none now s e = cc
session_of-IsLive (some u) now s e = (u, refl, ground arith)

module _ {H : Type 0} (r : Registry H) (session : Option Session) (c : Scans) where
  if_passed-ok :
      (handler h : H) (checked : Result RpcError (Unit {0}) × Cache)
      → (if_passed handler checked).0 ≡ ok h
      → (checked.0 ≡ ok tt) × (handler ≡ h) × ((if_passed handler checked).1 ≡ checked.1)
  if_passed-ok handler h (err e, cache) p = cc
  if_passed-ok handler h (ok u, cache) p = (refl, ground arith, refl)

  -- A user is signed in, and the extension can be used.
  abbrev pub IsAllowed : Str → Cache → Type 0
  IsAllowed extension cache =
      IsLive session c.clock × IsUsable (lookup extension r.extensions) cache

  if_signed_in-IsAllowed :
      (found : Result RpcError Session) (extension : Str) (handler h : H) (cache : Cache)
      → session_of session c.clock ≡ found
      → (if_signed_in found handler (ensure_available r session c extension cache) cache).0 ≡ ok h
      → (handler ≡ h)
        × IsAllowed extension
            (if_signed_in found handler (ensure_available r session c extension cache) cache).1
  unfolding ensure_available
  if_signed_in-IsAllowed (err e) extension handler h cache f p = cc
  if_signed_in-IsAllowed (ok s) extension handler h cache f p =
      let (passed, same, kept) =
        if_passed-ok handler h (ensure_available r session c extension cache) p in
      (
        same,
        (
          session_of-IsLive session c.clock s f,
          subst (IsUsable (lookup extension r.extensions)) (sym kept)
              (ensure_manifest-IsUsable session c (lookup extension r.extensions) cache passed),
        ),
      )

  by_publicity :
      (e : MethodEntry H) (public : Bool) (h : H) (cache : Cache)
      → e.public ≡ public
      → (if public
          then (ok e.handler, cache)
          else guarded r session c e.extension e.handler cache).0
        ≡ ok h
      → (e.handler ≡ h)
        × ((e.public ≡ true)
            ⊎ IsAllowed e.extension
                (if public
                  then (ok e.handler, cache)
                  else guarded r session c e.extension e.handler cache).1)
  unfolding guarded
  by_publicity e true h cache f p = (ground arith, inl f)
  by_publicity e false h cache f p =
      let (same, allowed) =
        if_signed_in-IsAllowed (session_of session c.clock) e.extension e.handler h cache refl p in
      (same, inr allowed)

  call_entry-IsAllowed :
      (name : Str) (o : Option (MethodEntry H)) (h : H) (cache : Cache)
      → (call_entry r session c name o cache).0 ≡ ok h
      → (e : MethodEntry H) × (o ≡ some e)
        × (e.handler ≡ h)
        × ((e.public ≡ true) ⊎ IsAllowed e.extension (call_entry r session c name o cache).1)
  unfolding call_entry guarded
  call_entry-IsAllowed name none h cache p = cc
  call_entry-IsAllowed name (some e) h cache p =
      let (same, allowed) = by_publicity e e.public h cache refl p in (e, refl, same, allowed)

-- When the handler of a call runs, it is the one registered for the method, and either the method is
-- public, or a user is signed in whose session has not expired, and the extension is not an installed
-- one or everything that it requires is served by the discovery that the cache then holds.
pub call-IsAllowed :
    {H : Type 0} (r : Registry H) (session : Option Session) (c : Scans) (name : Str) (h : H)
    (cache : Cache)
    → (call r session c name cache).0 ≡ ok h
    → (e : MethodEntry H) × (lookup name r.methods ≡ some e)
      × (e.handler ≡ h)
      × ((e.public ≡ true) ⊎ IsAllowed r session c e.extension (call r session c name cache).1)
unfolding call
call-IsAllowed r session c name h cache p =
    call_entry-IsAllowed r session c name (lookup name r.methods) h cache p

subscribe_entry-IsAllowed :
    {H : Type 0} (r : Registry H) (session : Option Session) (c : Scans) (name : Str)
    (o : Option (TopicEntry H)) (h : H) (cache : Cache)
    → (subscribe_entry r session c name o cache).0 ≡ ok h
    → (e : TopicEntry H) × (o ≡ some e)
      × (e.handler ≡ h)
      × IsAllowed r session c e.extension (subscribe_entry r session c name o cache).1
unfolding subscribe_entry guarded
subscribe_entry-IsAllowed r session c name none h cache p = cc
subscribe_entry-IsAllowed r session c name (some e) h cache p =
    let (same, allowed) =
      if_signed_in-IsAllowed r session c (session_of session c.clock) e.extension e.handler h cache
        refl p in
    (e, refl, same, allowed)

-- When the handler of a subscription runs, it is the one registered for the topic, a user is signed in
-- whose session has not expired, and the extension is not an installed one or everything that it
-- requires is served by the discovery that the cache then holds.
pub subscribe-IsAllowed :
    {H : Type 0} (r : Registry H) (session : Option Session) (c : Scans) (name : Str) (h : H)
    (cache : Cache)
    → (subscribe r session c name cache).0 ≡ ok h
    → (e : TopicEntry H) × (lookup name r.topics ≡ some e)
      × (e.handler ≡ h)
      × IsAllowed r session c e.extension (subscribe r session c name cache).1
unfolding subscribe
subscribe-IsAllowed r session c name h cache p =
    subscribe_entry-IsAllowed r session c name (lookup name r.topics) h cache p
