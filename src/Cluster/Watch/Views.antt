-- ===== src/Cluster/Watch/Views.antt =====
-- What the loop makes of pages and events is what they are documented to hold.
use mathlib.Core.Path.{fun_ext}
use kubevirt_webgui.Base.{
  ◌≡◌, refl, ap, sym, ◌∙◌, ◌⊎◌, inl, inr, List, [], ◌∷◌, ◌++◌, map, Option, none, some, Str, codes,
  str_eq, if◌then◌else◌,
}
use kubevirt_webgui.Base.Maps.{Table}
use kubevirt_webgui.Base.Json.{
  Json, null, bool, number, other_number, string, array, object, change, field, as_str, or_null,
  as_list,
}
use kubevirt_webgui.Cluster.Watch.{
  slim, strip, complete_item, resource_version, page_items, next_page, if_filled, or_empty,
  drop_list,
}
use kubevirt_webgui.Cluster.Watch.Pages.{changed_by}
use kubevirt_webgui.Cluster.Watch.Contract.{
  after, without_managed, shown, version_of, named, objects_in, continue_of, filled, IsLast,
  IsChange,
}

strip-without_managed : (v : Json) → strip v ≡ without_managed v
unfolding strip
strip-without_managed (object ms) = refl
strip-without_managed null = refl
strip-without_managed (bool b) = refl
strip-without_managed (number n) = refl
strip-without_managed (other_number s) = refl
strip-without_managed (string s) = refl
strip-without_managed (array items) = refl

pub slim-shown : (v : Json) → slim v ≡ shown v
unfolding slim strip
slim-shown (object ms) =
    ap (λ (f : Json → Json). object (change (codes "metadata") f ms))
      (fun_ext strip-without_managed)
slim-shown null = refl
slim-shown (bool b) = refl
slim-shown (number n) = refl
slim-shown (other_number s) = refl
slim-shown (string s) = refl
slim-shown (array items) = refl

complete_item-named :
    (kind : Str) (api_version v : Json)
    → complete_item kind api_version v ≡ named kind api_version v
unfolding complete_item
complete_item-named kind api_version (object ms) = refl
complete_item-named kind api_version null = refl
complete_item-named kind api_version (bool b) = refl
complete_item-named kind api_version (number n) = refl
complete_item-named kind api_version (other_number s) = refl
complete_item-named kind api_version (string s) = refl
complete_item-named kind api_version (array items) = refl

pub version_of-same : (v : Json) → resource_version v ≡ version_of v
unfolding resource_version
version_of-same v = refl

items-shown :
    (kind : Str) (api_version : Json) (items : List Json)
    → map (λ v. slim (complete_item kind api_version v)) items
      ≡ map shown (map (named kind api_version) items)
items-shown kind api_version [] = refl
items-shown kind api_version (v ∷ rest) =
    rw
      (
        slim-shown (complete_item kind api_version v),
        complete_item-named kind api_version v,
        items-shown kind api_version rest,
      )
      refl

pub page_items-shown : (p : Json) → page_items p ≡ map shown (objects_in p)
unfolding page_items
page_items-shown p =
    items-shown (drop_list (or_empty (as_str (field (codes "kind") p))))
      (or_null (field (codes "apiVersion") p)) (as_list (field (codes "items") p))

map-append : (xs ys : List Json) → map shown (xs ++ ys) ≡ map shown xs ++ map shown ys
map-append [] ys = refl
map-append (x ∷ xs) ys = ap (λ t. shown x ∷ t) (map-append xs ys)

-- What was gathered so far goes on with the objects of the next page.
pub gathered :
    (items raw : List Json) (p : Json)
    → items ≡ map shown raw
    → items ++ page_items p ≡ map shown (raw ++ objects_in p)
gathered items raw p same =
    ap (λ t. t ++ page_items p) same
    ∙ ap (λ t. map shown raw ++ t) (page_items-shown p)
    ∙ sym (map-append raw (objects_in p))

if_filled-none : (o : Option Str) → if_filled o ≡ none → (o ≡ none) ⊎ (o ≡ some [])
if_filled-none none h = inl refl
if_filled-none (some []) h = inr refl
if_filled-none (some (c ∷ s)) h = absurd (cc)

pub next_page-IsLast : (p : Json) → next_page p ≡ none → IsLast p
unfolding next_page
next_page-IsLast p h = if_filled-none (continue_of p) h

if_filled-filled : (o : Option Str) → if_filled o ≡ filled o
if_filled-filled none = refl
if_filled-filled (some []) = refl
if_filled-filled (some (c ∷ s)) = refl

pub next_page-filled : (p : Json) → next_page p ≡ filled (continue_of p)
unfolding next_page
next_page-filled p = if_filled-filled (continue_of p)

module _ (key_of : Json → Str) (cluster : Str → Table Json) where
  -- An event in the loop's own terms.
  abbrev pub Leads : Str → Str → Json → Type 0
  Leads v kind o =
      (k : Str)
      → cluster (after v (resource_version o)) k ≡ (
          if str_eq kind (codes "BOOKMARK")
          then cluster v k
          else changed_by key_of kind (slim o) (cluster v) k)

  pub IsChange-Leads : (v kind : Str) (o : Json) → IsChange key_of cluster v kind o → Leads v kind o
  IsChange-Leads v kind o change k =
      ap (λ rv. cluster (after v rv) k) (version_of-same o)
      ∙ change k
      ∙ ap
          (λ x.
            if str_eq kind (codes "BOOKMARK")
            then cluster v k
            else changed_by key_of kind x (cluster v) k)
          (sym (slim-shown o))
