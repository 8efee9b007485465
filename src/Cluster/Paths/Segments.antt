-- ===== src/Cluster/Paths/Segments.antt =====
-- The path of a resource splits into the parts that the reference names, and no others.
use kubevirt_webgui.Base.{
  ◌≡◌, refl, true, List, [], ◌∷◌, ◌++◌, Option, none, some, Str, codes, is_empty, all,
  if◌then◌else◌, ok, >>=-eq-ok, arith, split, split_once, join_each, join_each-append, append_assoc,
  append-nil, all-append,
}
use kubevirt_webgui.Cluster.Paths.{
  valid_segment, segment, ResourceRef, base_of, api_base, push_segment, push_namespace, push_name,
  push_parts, push_subresource, path,
}

-- The parts of each piece of a path.
abbrev pub base_parts_of : Str → Option (Str × Str) → List Str
base_parts_of api_version none = codes "api" ∷ api_version ∷ []
base_parts_of api_version (some (group, version)) = codes "apis" ∷ group ∷ version ∷ []

abbrev pub base_parts : Str → List Str
base_parts api_version = base_parts_of api_version (split_once b'/' api_version)

abbrev pub namespace_parts : Option Str → List Str
namespace_parts none = []
namespace_parts (some ns) = if is_empty ns then [] else codes "namespaces" ∷ ns ∷ []

abbrev pub name_parts : Option Str → List Str
name_parts none = []
name_parts (some name) = name ∷ []

abbrev pub subresource_parts : Option Str → List Str
subresource_parts none = []
subresource_parts (some s) = split b'/' s

abbrev pub parts : ResourceRef → List Str
parts r =
    base_parts r.api_version
    ++ (namespace_parts r.namespace
        ++ (r.resource ∷ [] ++ (name_parts r.name ++ subresource_parts r.subresource)))

-- `q` is `p` with the valid parts `ps` behind it.
abbrev pub Extends : Str → List Str → Str → Type 0
Extends p ps q = (q ≡ p ++ join_each b'/' ps) × (all valid_segment ps ≡ true)

Extends-trans :
    (p q r : Str) (ps qs : List Str) → Extends p ps q → Extends q qs r → Extends p (ps ++ qs) r
Extends-trans p q r ps qs (e, v) (f, w) = (
  ground
      (arith, join_each-append b'/' ps qs, append_assoc p (join_each b'/' ps) (join_each b'/' qs)),
  ground (arith, all-append valid_segment ps qs),
)

-- The fixed parts are valid.
constants :
    (valid_segment (codes "api") ≡ true)
    × (valid_segment (codes "apis") ≡ true)
    × (valid_segment (codes "namespaces") ≡ true)
unfolding valid_segment
constants = (refl, refl, refl)

push_segment_sound :
    (what value p q : Str) → push_segment what value p ≡ ok q → Extends p (value ∷ []) q
unfolding push_segment segment join_each
push_segment_sound what value p q e = ground (arith, append-nil value)

base_of_sound :
    (version : Str) (cut : Option (Str × Str)) (q : Str)
    → base_of version cut ≡ ok q
    → Extends [] (base_parts_of version cut) q
unfolding base_of segment join_each
base_of_sound version none q e = ground (arith, constants, append-nil version)
base_of_sound version (some (group, v)) q e = ground (arith, constants, append-nil v)

api_base_sound : (version q : Str) → api_base version ≡ ok q → Extends [] (base_parts version) q
unfolding api_base
api_base_sound version q e = base_of_sound version (split_once b'/' version) q e

push_namespace_sound :
    (ns : Option Str) (p q : Str) → push_namespace ns p ≡ ok q → Extends p (namespace_parts ns) q
unfolding push_namespace segment join_each
push_namespace_sound none p q e = ground (arith, append-nil p)
push_namespace_sound (some ns) p q e = ground (arith, append-nil p, append-nil ns, constants)

push_name_sound :
    (name : Option Str) (p q : Str) → push_name name p ≡ ok q → Extends p (name_parts name) q
unfolding push_name join_each
push_name_sound none p q e = ground (arith, append-nil p)
push_name_sound (some name) p q e = push_segment_sound (codes "name") name p q e

push_parts_sound : (ps : List Str) (p q : Str) → push_parts ps p ≡ ok q → Extends p ps q
unfolding push_parts join_each
push_parts_sound [] p q e = ground (arith, append-nil p)
push_parts_sound (x ∷ ps) p q e =
    let (longer, pushed, rest) = >>=-eq-ok (push_segment (codes "subresource") x p) _ e in
    Extends-trans p longer q (x ∷ []) ps
      (push_segment_sound (codes "subresource") x p longer pushed)
      (push_parts_sound ps longer q rest)

push_subresource_sound :
    (s name : Option Str) (p q : Str)
    → push_subresource s name p ≡ ok q
    → Extends p (subresource_parts s) q
unfolding push_subresource join_each
push_subresource_sound none name p q e = ground (arith, append-nil p)
push_subresource_sound (some s) none p q e = cc
push_subresource_sound (some s) (some name) p q e = push_parts_sound (split b'/' s) p q e

pub path_sound : (r : ResourceRef) (p : Str) → path r ≡ ok p → Extends [] (parts r) p
unfolding path
path_sound r p e =
    let (base, e1, f1) = >>=-eq-ok (api_base r.api_version) _ e in
    let (scoped, e2, f2) = >>=-eq-ok (push_namespace r.namespace base) _ f1 in
    let (collection, e3, f3) = >>=-eq-ok (push_segment (codes "resource") r.resource scoped) _ f2 in
    let (object, e4, f4) = >>=-eq-ok (push_name r.name collection) _ f3 in
    Extends-trans [] base p _ _ (api_base_sound r.api_version base e1) (
      Extends-trans base scoped p _ _ (push_namespace_sound r.namespace base scoped e2) (
        Extends-trans scoped collection p _ _
          (push_segment_sound (codes "resource") r.resource scoped collection e3)
          (Extends-trans collection object p _ _ (push_name_sound r.name collection object e4)
            (push_subresource_sound r.subresource r.name object p f4))))
