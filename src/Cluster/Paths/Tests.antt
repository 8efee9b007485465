-- ===== src/Cluster/Paths/Tests.antt =====
-- Paths of concrete references, and the theorems at them.
use kubevirt_webgui.Base.{
  ◌≡◌, refl, ◌⊎◌, ◌↔◌, true, false, List, [], Option, none, some, Str, codes, ◌∷◌, has_char, keep,
  is_alnum, arith, all, ok, split, split_once,
}
use kubevirt_webgui.Cluster.Paths.{valid_segment, ResourceRef, path, with_query}
use kubevirt_webgui.Cluster.Paths.Build.{new, ns, named, subresource}
use kubevirt_webgui.Cluster.Paths.Segments.{parts}
use kubevirt_webgui.Cluster.Paths.Total.{HasObject, path_iff}
use kubevirt_webgui.Cluster.Paths.Safety.{path-split, path-has_char}
use kubevirt_webgui.Cluster.Paths.Query.{present, parse_pairs, encoded, with_query-parse}

abbrev start : ResourceRef
unfolding new ns named subresource
start =
    subresource
      (named
        (ns (new (codes "subresources.kubevirt.io/v1") (codes "virtualmachines")) (codes "vms"))
        (codes "db"))
      (codes "start")

abbrev start_path : Str
start_path = codes "/apis/subresources.kubevirt.io/v1/namespaces/vms/virtualmachines/db/start"

start_built : path start ≡ ok start_path
unfolding path new ns named subresource split split_once valid_segment
start_built = refl

path-split_example :
    (split b'/' start_path ≡ [] ∷ parts start) × (all valid_segment (parts start) ≡ true)
unfolding new ns named subresource
path-split_example = path-split start start_path start_built

start_path_plain : has_char b'?' start_path ≡ false
start_path_plain = path-has_char start start_path b'?' start_built (omega arith) refl

path_given :
    ((p : Str) × (path start ≡ ok p)) ↔ (HasObject start × (all valid_segment (parts start) ≡ true))
path_given = path_iff start

-- A stand-in for the encoding: it keeps letters and digits, and drops the rest.
abbrev letters : Str → Str
letters = keep is_alnum

letters-free : (s : Str) → has_char b'&' (letters s) ≡ false
letters-free [] = refl
letters-free (c ∷ s) = ground (arith, letters-free s)

abbrev watching : List (Str × Option Str)
watching = (codes "watch", some (codes "true")) ∷ (codes "continue", none) ∷ []

query_read :
    ((present watching ≡ []) × (with_query letters (codes "/api") watching ≡ codes "/api"))
    ⊎ ((query : Str) × (split_once b'?' (with_query letters (codes "/api") watching)
          ≡ some (codes "/api", query))
        × (parse_pairs (split b'&' query) ≡ encoded letters (present watching)))
query_read =
    with_query-parse letters letters-free (codes "/api") watching refl
      (refl, refl, (refl, refl, tt))
