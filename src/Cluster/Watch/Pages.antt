-- ===== src/Cluster/Watch/Pages.antt =====
-- What a subscriber has after the notes that it was sent.
use kubevirt_webgui.Base.{◌≡◌, refl, List, [], ◌∷◌, ◌++◌, Str, codes, str_eq, if◌then◌else◌}
use kubevirt_webgui.Base.Maps.{Table, no_rows, insert, remove}
use kubevirt_webgui.Base.Json.{Json}
use kubevirt_webgui.Cluster.Watch.{Note, failed, sync, changed}

-- `key_of` is what tells the objects of a collection apart: their namespace and name.
module _ (key_of : Json → Str) where
  unfoldable pub table_of : List Json → Table Json
  unfolding insert
  table_of [] = no_rows
  table_of (o ∷ rest) = insert (key_of o) o (table_of rest)

  unfoldable pub changed_by : Str → Json → Table Json → Table Json
  unfolding insert remove str_eq
  changed_by kind o rows =
      if str_eq kind (codes "DELETED") then remove (key_of o) rows else insert (key_of o) o rows

  unfoldable pub take_note : Note → Table Json → Table Json
  unfolding table_of changed_by
  take_note (failed e) rows = rows
  take_note (sync items version) rows = table_of items
  take_note (changed kind o) rows = changed_by kind o rows

  unfoldable pub replay_onto : Table Json → List Note → Table Json
  unfolding take_note
  replay_onto rows [] = rows
  replay_onto rows (note ∷ notes) = replay_onto (take_note note rows) notes

  unfoldable pub replay : List Note → Table Json
  unfolding replay_onto
  replay = replay_onto no_rows

  replay_onto-append :
      (rows : Table Json) (notes : List Note) (note : Note)
      → replay_onto rows (notes ++ (note ∷ [])) ≡ take_note note (replay_onto rows notes)
  unfolding replay_onto
  replay_onto-append rows [] note = refl
  replay_onto-append rows (first ∷ notes) note =
      replay_onto-append (take_note first rows) notes note

  pub replay-append :
      (notes : List Note) (note : Note)
      → replay (notes ++ (note ∷ [])) ≡ take_note note (replay notes)
  unfolding replay
  replay-append = replay_onto-append no_rows
