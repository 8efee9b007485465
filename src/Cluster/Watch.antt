-- ===== src/Cluster/Watch.antt =====
-- List-then-watch (src/cluster/watch.rs, with `slim` of src/cluster/mod.rs): the loop as a machine that
-- waits for a page of the list, for the end of a pause, for the stream of a watch or for its next line.
use Prim.Native.Nat.{min}
use kubevirt_webgui.Base.{
  ℕ, ◌+◌, ◌^◌, ◌%◌, Bool, true, false, not, ◌&&◌, ◌||◌, ◌==◌, List, [], ◌∷◌, ◌++◌, map, Option,
  none, some, Str, codes, str_eq, is_empty, trim_end, if◌then◌else◌, Result, ok, err, ◌>>=◌,
}
use kubevirt_webgui.Base.Json.{
  Json, null, number, string, object, field, field_of, as_str, or_null, as_list, or_insert, delete,
  change,
}
use kubevirt_webgui.Cluster.{ApiError}
use kubevirt_webgui.Cluster.Paths.{ResourceRef, segment, path, with_query}
pub mod Pages
pub mod Contract
pub mod Views
pub mod Gathered
pub mod Mirror
pub mod Ends
mod Tests

pub record WatchParams : Type 0 where
  pub target : ResourceRef
  pub label_selector : Option Str
  pub field_selector : Option Str

-- What is listed and watched: the path of the collection, and the selector of an object by its name.
pub record Watched : Type 0 where
  pub at : Str
  pub label_selector : Option Str
  pub field_selector : Option Str

abbrev pub by_name : Str → Str
by_name name = codes "metadata.name=" ++ name

abbrev pub with_name : Option Str → Str → Str
with_name none name = by_name name
with_name (some existing) name =
    if is_empty existing then by_name name else existing ++ b',' ∷ by_name name

unfoldable pub selector : Option Str → Option Str → Result ApiError (Option Str)
unfolding segment
selector none existing = ok existing
selector (some name) existing = do v ← segment (codes "name") name; ok (some (with_name existing v))

unfoldable pub collection : ResourceRef → ResourceRef
collection r = record r { name = none; subresource = none }

unfoldable pub prepare : WatchParams → Result ApiError Watched
unfolding collection path selector
prepare params = do
  fields ← selector params.target.name params.field_selector
  at ← path (collection params.target)
  ok (record { at = at; label_selector = params.label_selector; field_selector = fields })

-- In seconds.
unfoldable pub backoff : ℕ → ℕ
backoff failures = min (2 ^ min failures 5) 30

abbrev pub one_more : ℕ → ℕ
one_more failures = (failures + 1) % 2 ^ 32

-- Without the fields that no screen shows.
unfoldable pub strip : Json → Json
unfolding delete
strip (object ms) = object (delete (codes "managedFields") ms)
strip v = v

unfoldable pub slim : Json → Json
unfolding change strip
slim (object ms) = object (change (codes "metadata") strip ms)
slim v = v

unfoldable pub resource_version : Json → Option Str
unfolding field_of field
resource_version v = as_str (field_of (codes "resourceVersion") (field (codes "metadata") v))

abbrev pub or_empty : Option Str → Str
or_empty none = []
or_empty (some s) = s

-- `List`, any number of times.
unfoldable pub are_lists : Str → Bool
unfolding str_eq
are_lists [] = true
are_lists (a ∷ b ∷ c ∷ d ∷ s) = str_eq (a ∷ b ∷ c ∷ d ∷ []) (codes "List") && are_lists s
are_lists _ = false

-- `s.trim_end_matches("List")`.
unfoldable pub drop_list : Str → Str
unfolding are_lists
drop_list [] = []
drop_list (c ∷ s) = let rest = drop_list s in if are_lists (c ∷ s) then [] else c ∷ rest

-- A listed item with the kind and the version of its list.
unfoldable pub complete_item : Str → Json → Json → Json
unfolding or_insert
complete_item kind api_version (object ms) =
    object (or_insert (codes "apiVersion") api_version (or_insert (codes "kind") (string kind) ms))
complete_item kind api_version v = v

unfoldable pub page_items : Json → List Json
unfolding drop_list complete_item slim
page_items page =
    let kind = drop_list (or_empty (as_str (field (codes "kind") page))) in
    let api_version = or_null (field (codes "apiVersion") page) in
    map (λ v. slim (complete_item kind api_version v)) (as_list (field (codes "items") page))

abbrev pub if_filled : Option Str → Option Str
if_filled none = none
if_filled (some s) = if is_empty s then none else some s

unfoldable pub next_page : Json → Option Str
unfolding field_of field
next_page page = if_filled (as_str (field_of (codes "continue") (field (codes "metadata") page)))

-- What the subscriber is told.
pub data Note : Type 0 where
  failed : ApiError → Note
  sync : List Json → Str → Note
  changed : Str → Json → Note

-- What the loop waits for.
pub data Phase : Type 0 where
  listing : List Json → Option Str → Phase
  pausing : ℕ → Phase
  opening reading : Phase
  stopped : Result ApiError (Unit {0}) → Phase

-- `version` is that of the last list and of the events since.
pub record Machine : Type 0 where
  pub phase : Phase
  pub version : Option Str
  pub failures : ℕ
  pub sent : List Note

abbrev pub list_again : Phase
list_again = listing [] none

abbrev pub start : Machine
start = record { phase = list_again; version = none; failures = 0; sent = [] }

pub data Input : Type 0 where
  page : Result ApiError Json → Input
  woke : Input
  opened : Result ApiError (Unit {0}) → Input
  event : Json → Input
  broken ended : Input

-- A note, and where to go on while the subscriber listens.
abbrev pub emit : Bool → Note → Phase → Machine → Machine
emit listens note phase m = record m {
  sent = m.sent ++ (note ∷ []);
  phase = if listens then phase else stopped (ok tt);
}

abbrev pub is_final : ApiError → Bool
is_final e = e.status == 403 || e.status == 404

unfoldable pub on_page_error : Bool → ApiError → Machine → Machine
unfolding backoff
on_page_error listens e m =
    let failures = one_more m.failures in
    if is_final e || e.status == 400
    then record m { phase = stopped (err e) }
    else emit listens (failed e) (pausing (backoff failures)) (record m { failures = failures })

abbrev pub page_version : Json → Str
page_version p = or_empty (resource_version p)

-- The list is whole when there is no token for a further page.
abbrev pub on_items : Bool → List Json → Str → Option Str → Machine → Machine
on_items listens items version (some token) m = record m { phase = listing items (some token) }
on_items listens items version none m =
    emit listens (sync items version) opening (record m { version = some version })

unfoldable pub on_opened : Result ApiError (Unit {0}) → Machine → Machine
unfolding backoff
on_opened (ok _) m = record m { phase = reading }
on_opened (err e) m =
    let failures = one_more m.failures in
    if e.status == 410
    then record m { phase = list_again }
    else if is_final e
    then record m { phase = stopped (err e) }
    else record m { phase = pausing (backoff failures); failures = failures }

abbrev pub seen_version : Option Str → Machine → Machine
seen_version none m = m
seen_version (some rv) m = record m { version = some rv }

abbrev pub code_of : Option Json → ℕ
code_of (some (number n)) = n
code_of _ = 0

unfoldable pub on_event : Bool → Str → Json → Machine → Machine
unfolding backoff slim resource_version field
on_event listens kind o m =
    if str_eq kind (codes "BOOKMARK")
    then seen_version (resource_version o) m
    else if str_eq kind (codes "ERROR")
    then record m {
      phase = if code_of (field (codes "code") o) == 410 then list_again else pausing (backoff 1);
    }
    else emit listens (changed kind (slim o)) reading (seen_version (resource_version o) m)

abbrev pub event_kind : Json → Str
event_kind e = or_empty (as_str (field (codes "type") e))

abbrev pub event_object : Json → Json
event_object e = or_null (field (codes "object") e)

-- What the loop does with what it waited for; `listens` is what `emit` answers.
unfoldable pub advance : Bool → Phase → Input → Machine → Machine
unfolding on_page_error on_opened on_event page_items next_page
advance listens (listing items token) (page (err e)) m = on_page_error listens e m
advance listens (listing items token) (page (ok p)) m =
    on_items listens (items ++ page_items p) (page_version p) (next_page p) m
advance listens (pausing seconds) woke m = record m { phase = list_again }
advance listens opening (opened r) m = on_opened r m
advance listens reading (event e) m =
    on_event listens (event_kind e) (event_object e) (record m { failures = 0 })
advance listens reading broken m = record m { phase = opening }
advance listens reading ended m = record m { phase = opening }
advance listens phase input m = m

unfoldable pub step : Bool → Input → Machine → Machine
unfolding advance
step listens input m = advance listens m.phase input m

-- The request that the loop waits for.
module _ (encode : Str → Str) where
  unfoldable pub request : Watched → Machine → Option Str
  unfolding with_query
  request w m = elim m.phase [
    | listing items token ↦ some (
        with_query encode w.at (
          (codes "labelSelector", w.label_selector)
          ∷ (codes "fieldSelector", w.field_selector)
          ∷ (codes "limit", some (codes "500"))
          ∷ (codes "continue", token)
          ∷ []))
    | opening ↦ some (
        with_query encode w.at (
          (codes "watch", some (codes "true"))
          ∷ (codes "allowWatchBookmarks", some (codes "true"))
          ∷ (codes "timeoutSeconds", some (codes "240"))
          ∷ (codes "resourceVersion", some (or_empty m.version))
          ∷ (codes "labelSelector", w.label_selector)
          ∷ (codes "fieldSelector", w.field_selector)
          ∷ []))
    | pausing seconds ↦ none
    | reading ↦ none
    | stopped r ↦ none
  ]
