-- ===== src/Cluster/Paths/Total.antt =====
-- Which references have a path: those whose parts are all valid, and whose subresource, if any, is
-- one of a named object.
use kubevirt_webgui.Base.{
  ◌≡◌, refl, true, List, [], ◌∷◌, ◌++◌, Option, none, some, Str, codes, all, Result, ok, >>=-eq-ok,
  arith, split, split_once, all-append, inl, inr, ◌⊎◌, ◌↔◌,
}
use kubevirt_webgui.Cluster.{ApiError}
use kubevirt_webgui.Cluster.Paths.{
  valid_segment, segment, ResourceRef, base_of, api_base, push_segment, push_namespace, push_name,
  push_parts, push_subresource, path,
}
use kubevirt_webgui.Cluster.Paths.Segments.{
  base_parts_of, base_parts, namespace_parts, name_parts, subresource_parts, parts, path_sound,
}

-- A subresource is one of an object.
abbrev pub HasObject : ResourceRef → Type 0
HasObject r = (r.subresource ≡ none) ⊎ ((name : Str) × (r.name ≡ some name))

push_subresource-HasObject :
    (r : ResourceRef) (p q : Str) → push_subresource r.subresource r.name p ≡ ok q → HasObject r
unfolding push_subresource
push_subresource-HasObject r p q e = ground arith

path-HasObject : (r : ResourceRef) (p : Str) → path r ≡ ok p → HasObject r
unfolding path
path-HasObject r p e =
    let (base, e1, f1) = >>=-eq-ok (api_base r.api_version) _ e in
    let (scoped, e2, f2) = >>=-eq-ok (push_namespace r.namespace base) _ f1 in
    let (collection, e3, f3) = >>=-eq-ok (push_segment (codes "resource") r.resource scoped) _ f2 in
    let (object, e4, f4) = >>=-eq-ok (push_name r.name collection) _ f3 in
    push_subresource-HasObject r object p f4

push_segment_total :
    (what value p : Str)
    → valid_segment value ≡ true
    → push_segment what value p ≡ ok (p ++ b'/' ∷ value)
unfolding push_segment segment
push_segment_total what value p v = ground arith

abbrev Succeeds : Result ApiError Str → Type 0
Succeeds r = (q : Str) × (r ≡ ok q)

base_of_total :
    (version : Str) (cut : Option (Str × Str))
    → all valid_segment (base_parts_of version cut) ≡ true
    → Succeeds (base_of version cut)
unfolding base_of segment
base_of_total version none v = (codes "/api/" ++ version, ground arith)
base_of_total version (some (group, w)) v = (codes "/apis/" ++ (group ++ b'/' ∷ w), ground arith)

push_namespace_total :
    (ns : Option Str) (p : Str)
    → all valid_segment (namespace_parts ns) ≡ true
    → Succeeds (push_namespace ns p)
unfolding push_namespace segment
push_namespace_total none p v = (p, refl)
push_namespace_total (some []) p v = (p, refl)
push_namespace_total (some (c ∷ ns)) p v = (p ++ (codes "/namespaces/" ++ c ∷ ns), ground arith)

push_name_total :
    (name : Option Str) (p : Str)
    → all valid_segment (name_parts name) ≡ true
    → Succeeds (push_name name p)
unfolding push_name push_segment segment
push_name_total none p v = (p, refl)
push_name_total (some name) p v = (p ++ b'/' ∷ name, ground arith)

push_parts_total :
    (ps : List Str) (p : Str) → all valid_segment ps ≡ true → Succeeds (push_parts ps p)
unfolding push_parts
push_parts_total [] p v = (p, refl)
push_parts_total (x ∷ ps) p v =
    rw (push_segment_total (codes "subresource") x p (ground arith))
      (push_parts_total ps (p ++ b'/' ∷ x) (ground arith))

push_subresource_total :
    (r : ResourceRef) (p : Str)
    → HasObject r
    → all valid_segment (subresource_parts r.subresource) ≡ true
    → Succeeds (push_subresource r.subresource r.name p)
unfolding push_subresource
push_subresource_total r p (inl bare) v = rw (bare, push_subresource) (p, refl)
push_subresource_total r p (inr (name, named)) v = rw named (go r.subresource v)
  where
    go :
        (s : Option Str)
        → all valid_segment (subresource_parts s) ≡ true
        → Succeeds (push_subresource s (some name) p)
    go none w = (p, refl)
    go (some s) w = push_parts_total (split b'/' s) p w

all_append_parts :
    (ps qs : List Str)
    → all valid_segment (ps ++ qs) ≡ true
    → (all valid_segment ps ≡ true) × (all valid_segment qs ≡ true)
all_append_parts ps qs h = ground (arith, all-append valid_segment ps qs)

path_total :
    (r : ResourceRef) → HasObject r → all valid_segment (parts r) ≡ true → Succeeds (path r)
unfolding path api_base
path_total r object v =
    let (v1, w1) = all_append_parts (base_parts r.api_version) _ v in
    let (v2, w2) = all_append_parts (namespace_parts r.namespace) _ w1 in
    let (v3, w3) = all_append_parts (r.resource ∷ []) _ w2 in
    let (v4, v5) = all_append_parts (name_parts r.name) _ w3 in
    let (base, e1) = base_of_total r.api_version (split_once b'/' r.api_version) v1 in
    let (scoped, e2) = push_namespace_total r.namespace base v2 in
    let e3 = push_segment_total (codes "resource") r.resource scoped (ground arith) in
    let (named, e4) = push_name_total r.name (scoped ++ b'/' ∷ r.resource) v4 in
    let (q, e5) = push_subresource_total r named object v5 in (q, rw (e1, e2, e3, e4) e5)

-- A path is built exactly when every part is valid, and a subresource is one of a named object.
pub path_iff :
    (r : ResourceRef)
    → ((p : Str) × (path r ≡ ok p)) ↔ (HasObject r × (all valid_segment (parts r) ≡ true))
path_iff r =
    (λ (p, e). (path-HasObject r p e, (path_sound r p e).1), λ (object, v). path_total r object v)
