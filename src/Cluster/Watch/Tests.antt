-- ===== src/Cluster/Watch/Tests.antt =====
-- Two pods are listed, and one is deleted while they are watched.
use kubevirt_webgui.Base.{
  ◌≡◌, refl, none, ◌⊎◌, inr, true, false, List, [], ◌∷◌, map, Str, codes, str_eq, if◌then◌else◌, ok,
  err,
}
use kubevirt_webgui.Base.Maps.{Table}
use kubevirt_webgui.Base.Json.{
  Json, string, object, array, end, item, empty, member, field, field_of, as_str,
}
use kubevirt_webgui.Cluster.{ApiError, bad_request}
use kubevirt_webgui.Cluster.Watch.{
  Machine, start, Input, page, opened, event, broken, stopped, slim, page_items, or_empty, step,
  drop_list,
}
use kubevirt_webgui.Cluster.Watch.Pages.{table_of, changed_by}
use kubevirt_webgui.Cluster.Watch.Contract.{shown, objects_in, IsMirror}
use kubevirt_webgui.Cluster.Watch.Mirror.{Reach, next, here, Reach-IsMirror}
use kubevirt_webgui.Cluster.Watch.Ends.{IsSound, Run, next, here, Run-Ends}

drop_list-pods : drop_list (codes "PodListList") ≡ codes "Pod"
unfolding drop_list str_eq
drop_list-pods = refl

abbrev pod : Str → Str → Json
pod name version = object (
    member (codes "metadata")
      (object (
        member (codes "name") (string name) (
          member (codes "managedFields") (array end)
            (member (codes "resourceVersion") (string version) empty))))
      empty)

unfoldable name_of : Json → Str
unfolding field field_of
name_of o = or_empty (as_str (field_of (codes "name") (field (codes "metadata") o)))

abbrev pods : Json
pods = object (
    member (codes "kind") (string (codes "PodList")) (
      member (codes "metadata")
        (object (member (codes "resourceVersion") (string (codes "5")) empty))
        (member (codes "items")
          (array (item (pod (codes "a") (codes "3")) (item (pod (codes "b") (codes "4")) end)))
          empty)))

abbrev deleted : Json
deleted = object (
    member (codes "type") (string (codes "DELETED"))
      (member (codes "object") (pod (codes "a") (codes "6")) empty))

-- What the cluster has: at version 6 the first pod is gone.
unfoldable cluster : Str → Table Json
unfolding table_of changed_by str_eq
cluster version =
    if str_eq version (codes "6")
    then changed_by name_of (codes "DELETED") (shown (pod (codes "a") (codes "6")))
        (table_of name_of (map shown (objects_in pods)))
    else table_of name_of (map shown (objects_in pods))

abbrev inputs : List Input
inputs = page (ok pods) ∷ opened (ok tt) ∷ event deleted ∷ broken ∷ []

abbrev run : List Input → Machine → Machine
run [] m = m
run (input ∷ rest) m = run rest (step true input m)

watched : Reach name_of cluster start ([], none) (run inputs start)
unfolding step cluster page_items table_of changed_by str_eq slim field
watched =
    next true broken
      (next true (event deleted)
        (next true (opened (ok tt)) (next true (page (ok pods)) here (λ _ _ k. refl)) tt)
        (inr (λ k. refl)))
      tt

Reach-IsMirror_example : IsMirror name_of cluster (run inputs start)
Reach-IsMirror_example = Reach-IsMirror name_of cluster watched

gone : ApiError
gone = bad_request (record { format = "no"; args = [] })

refused : Run start (run (page (err gone) ∷ []) start)
refused = next true (page (err gone)) here

Run-Ends_example :
    IsSound (run (page (err gone) ∷ []) start).phase
    × ((input : Input)
        → ((step false input (run (page (err gone) ∷ []) start)).sent
            ≡ (run (page (err gone) ∷ []) start).sent)
          ⊎ ((step false input (run (page (err gone) ∷ []) start)).phase ≡ stopped (ok tt)))
Run-Ends_example = Run-Ends refused
