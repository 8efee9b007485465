-- ===== src/Gateway/Console/Path.antt =====
-- A ticket opens only the path of a valid console.
use kubevirt_webgui.Base.{
  ℕ, ◌≡◌, refl, true, List, [], ◌∷◌, ◌++◌, Option, none, some, Str, codes, arith, split,
  split-append,
}
use kubevirt_webgui.Base.Maps.{no_rows}
use kubevirt_webgui.Cluster.Paths.{valid_segment}
use kubevirt_webgui.Gateway.Console.{
  ConsoleKind, vnc, serial, Ticket, redeem, still_valid, console_path, subresource,
}
use kubevirt_webgui.Cluster.Paths.Safety.{valid_segment-has_char}
use kubevirt_webgui.Gateway.Console.Calls.{Call, run}
use kubevirt_webgui.Gateway.Console.Laws.{run-Every}

still_valid-some :
    (Kube : Type 0) (now : ℕ) (o : Option (Ticket Kube)) (t : Ticket Kube)
    → still_valid Kube now o ≡ some t
    → o ≡ some t
still_valid-some Kube now none t e = cc
still_valid-some Kube now (some u) t e = ground arith

split_subresource : (kind : ConsoleKind) → split b'/' (subresource kind) ≡ subresource kind ∷ []
unfolding split
split_subresource vnc = refl
split_subresource serial = refl

split_path :
    {Kube : Type 0} (t : Ticket Kube)
    → valid_segment t.namespace ≡ true
    → valid_segment t.name ≡ true
    → split b'/' (console_path t)
      ≡ []
        ∷ codes "apis"
        ∷ codes "subresources.kubevirt.io"
        ∷ codes "v1"
        ∷ codes "namespaces"
        ∷ t.namespace
        ∷ codes "virtualmachineinstances"
        ∷ t.name
        ∷ subresource t.kind
        ∷ []
unfolding console_path split
split_path t v w =
    rw
      (
        split-append b'/' t.namespace
            (codes "virtualmachineinstances/" ++ (t.name ++ (codes "/" ++ subresource t.kind)))
            (valid_segment-has_char b'/' t.namespace refl v),
        split-append b'/' t.name (subresource t.kind) (valid_segment-has_char b'/' t.name refl w),
        split_subresource t.kind,
      )
      refl

-- From the start and through any calls, a ticket that is redeemed names a valid namespace and machine:
-- the slashes of its path divide it into exactly the intended parts.
pub console_path-split :
    (Kube : Type 0) (ttl : ℕ) (calls : List (Call Kube ttl)) (ticket : Str) (now : ℕ)
    (t : Ticket Kube)
    → (redeem Kube ticket now (run Kube ttl calls no_rows)).0 ≡ some t
    → (valid_segment t.namespace ≡ true)
      × (valid_segment t.name ≡ true)
      × (split b'/' (console_path t)
          ≡ []
            ∷ codes "apis"
            ∷ codes "subresources.kubevirt.io"
            ∷ codes "v1"
            ∷ codes "namespaces"
            ∷ t.namespace
            ∷ codes "virtualmachineinstances"
            ∷ t.name
            ∷ subresource t.kind
            ∷ [])
unfolding redeem
console_path-split Kube ttl calls ticket now t e =
    let safe =
      run-Every Kube ttl calls no_rows (λ k v f. ground arith) ticket t
        (still_valid-some Kube now (run Kube ttl calls no_rows ticket) t e) in
    (safe.0, safe.1, split_path t safe.0 safe.1)
