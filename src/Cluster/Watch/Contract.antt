-- ===== src/Cluster/Watch/Contract.antt =====
-- What the API server documents of lists and events, and what a subscriber should have.
use kubevirt_webgui.Base.{
  ◌≡◌, ◌⊎◌, true, false, List, [], ◌∷◌, ◌++◌, map, Option, none, some, Str, codes, str_eq,
  if◌then◌else◌, ok, err,
}
use kubevirt_webgui.Base.Maps.{Table}
use kubevirt_webgui.Base.Json.{
  Json, string, object, field, field_of, as_str, or_null, as_list, or_insert, delete, change,
}
use kubevirt_webgui.Cluster.Watch.{
  Note, Phase, listing, pausing, opening, reading, stopped, Machine, Input, page, event, or_empty,
  drop_list,
}
use kubevirt_webgui.Cluster.Watch.Pages.{table_of, changed_by, replay}

abbrev pub after : Str → Option Str → Str
after v none = v
after v (some rv) = rv

-- A watch is never opened without a version.
abbrev pub HasVersion : Option Str → Type 0
HasVersion none = false ≡ true
HasVersion (some v) = Unit

abbrev pub IsReady : Phase → Option Str → Type 0
IsReady opening v = HasVersion v
IsReady reading v = HasVersion v
IsReady (listing items token) v = Unit
IsReady (pausing seconds) v = Unit
IsReady (stopped r) v = Unit

-- An object as a subscriber is shown it: without `metadata.managedFields`.
abbrev pub without_managed : Json → Json
without_managed (object ms) = object (delete (codes "managedFields") ms)
without_managed v = v

abbrev pub shown : Json → Json
shown (object ms) = object (change (codes "metadata") without_managed ms)
shown v = v

-- The version that an object or a list names.
abbrev pub version_of : Json → Option Str
version_of v = as_str (field_of (codes "resourceVersion") (field (codes "metadata") v))

-- An item of a list is an object that names its kind and version only by those of the list, whose kind
-- has `List` at its end (`drop_list` is `trim_end_matches`).
abbrev pub named : Str → Json → Json → Json
named kind api_version (object ms) =
    object (or_insert (codes "apiVersion") api_version (or_insert (codes "kind") (string kind) ms))
named kind api_version v = v

-- The objects on a page of a list.
abbrev pub objects_in : Json → List Json
objects_in p =
    map
      (named (drop_list (or_empty (as_str (field (codes "kind") p))))
        (or_null (field (codes "apiVersion") p)))
      (as_list (field (codes "items") p))

abbrev pub continue_of : Json → Option Str
continue_of p = as_str (field_of (codes "continue") (field (codes "metadata") p))

-- The last page of a list has no token for another, or an empty one.
abbrev pub IsLast : Json → Type 0
IsLast p = (continue_of p ≡ none) ⊎ (continue_of p ≡ some [])

-- The token for the page after a page.
abbrev pub filled : Option Str → Option Str
filled none = none
filled (some []) = none
filled (some (c ∷ s)) = some (c ∷ s)

-- The objects on the pages of the list that is being read, as the server sent them, and the token that
-- the last of these pages gave.
abbrev pub Pages : Type 0
Pages = List Json × Option Str

abbrev pub gather : Phase → Input → Pages → Pages
gather (listing items token) (page (ok p)) raw = (raw.0 ++ objects_in p, filled (continue_of p))
gather (listing items token) (page (err e)) raw = ([], none)
gather (listing items token) input raw = raw
gather phase input raw = ([], none)

module _ (key_of : Json → Str) (cluster : Str → Table Json) where
  -- What the API server documents, of the collection `cluster v` at a version `v`, each object as it is
  -- shown: where each page is asked for with the token that the page before gave, and the first one with
  -- none, the pages up to the last one are the collection at the version that it names; and an event
  -- leads to the version that it names.
  abbrev pub IsChange : Str → Str → Json → Type 0
  IsChange v kind o =
      (k : Str)
      → cluster (after v (version_of o)) k ≡ (
          if str_eq kind (codes "BOOKMARK")
          then cluster v k
          else changed_by key_of kind (shown o) (cluster v) k)

  abbrev pub IsHonestEvent : Option Str → Json → Type 0
  IsHonestEvent none e = Unit
  IsHonestEvent (some v) e =
      let kind = or_empty (as_str (field (codes "type") e)) in
      (kind ≡ codes "ERROR") ⊎ IsChange v kind (or_null (field (codes "object") e))

  abbrev pub IsHonest : Phase → Option Str → Pages → Input → Type 0
  IsHonest (listing items token) v raw (page (ok p)) =
      token ≡ raw.1
      → IsLast p
      → (k : Str)
      → table_of key_of (map shown (raw.0 ++ objects_in p)) k ≡ cluster (or_empty (version_of p)) k
  IsHonest reading v raw (event e) = IsHonestEvent v e
  IsHonest phase v raw input = Unit

  abbrev pub Mirrors : Option Str → List Note → Type 0
  Mirrors none sent = Unit
  Mirrors (some v) sent = (k : Str) → replay key_of sent k ≡ cluster v k

  abbrev pub IsMirror : Machine → Type 0
  IsMirror m = IsReady m.phase m.version × Mirrors m.version m.sent
