-- ===== src/Proxmox/Config/RoundTrip.antt =====
-- Property strings read as they were put together.
use kubevirt_webgui.Base.{
  ◌≡◌, refl, ap, ◌∙◌, true, false, List, [], ◌∷◌, ◌++◌, none, some, Str, codes, is_empty, trim,
  split_once-append, split_once_of_IsFree, join, split-join, IsFree, AllFree,
}
use kubevirt_webgui.Base.Maps.{Table, no_rows, insert}
use kubevirt_webgui.Proxmox.Config.Props.{Props, read_part, read_parts, parse_props}

abbrev pub render : Str × Str → Str
render (k, v) = k ++ b'=' ∷ v

abbrev pub renders : List (Str × Str) → List Str
renders [] = []
renders (pair ∷ rest) = render pair ∷ renders rest

-- A key and a value without separators, with nothing to trim.
abbrev pub IsPlainPair : Str × Str → Type 0
IsPlainPair (k, v) =
    IsFree b'=' k
    × IsFree b',' (k ++ b'=' ∷ v)
    × (trim k ≡ k)
    × (trim v ≡ v)
    × (trim (k ++ b'=' ∷ v) ≡ k ++ b'=' ∷ v)

abbrev pub ArePlain : List (Str × Str) → Type 0
ArePlain [] = Unit
ArePlain (pair ∷ rest) = IsPlainPair pair × ArePlain rest

-- The last value of each key.
abbrev pub insert_all : List (Str × Str) → Table Str → Table Str
unfolding insert
insert_all [] rows = rows
insert_all ((k, v) ∷ rest) rows = insert_all rest (insert k v rows)

renders-AllFree : (pairs : List (Str × Str)) → ArePlain pairs → AllFree b',' (renders pairs)
renders-AllFree [] h = tt
renders-AllFree ((k, v) ∷ rest) (p, h) = (p.1, renders-AllFree rest h)

is_empty-render : (k v : Str) → is_empty (k ++ b'=' ∷ v) ≡ false
is_empty-render [] v = refl
is_empty-render (c ∷ k) v = refl

read_part-pair :
    (k v : Str) (props : Props)
    → IsPlainPair (k, v)
    → read_part false (k ++ b'=' ∷ v) props ≡ record props { pairs = insert k v props.pairs }
unfolding read_part
read_part-pair k v props (eq, comma, tk, tv, t) =
    rw (t, is_empty-render k v, split_once-append b'=' k v eq, tk, tv) refl

read_parts-pairs :
    (pairs : List (Str × Str)) (props : Props)
    → ArePlain pairs
    → read_parts false (renders pairs) props ≡ record props { pairs = insert_all pairs props.pairs }
unfolding read_parts
read_parts-pairs [] props h = refl
read_parts-pairs ((k, v) ∷ rest) props (p, h) =
    ap (read_parts false (renders rest)) (read_part-pair k v props p)
    ∙ read_parts-pairs rest (record props { pairs = insert k v props.pairs }) h

read_part-head :
    (head : Str)
    → IsFree b'=' head
    → trim head ≡ head
    → is_empty head ≡ false
    → read_part true head (record { head = none; pairs = no_rows })
      ≡ record { head = some head; pairs = no_rows }
unfolding read_part
read_part-head head free t filled = rw (t, filled, split_once_of_IsFree b'=' head free) refl

-- A head and pairs without separators and with nothing to trim, put together with commas: `Props::parse`
-- gives the head back, and for every key the last value of the pairs.
pub parse_props-join :
    (head : Str) (pairs : List (Str × Str))
    → IsFree b'=' head
    → IsFree b',' head
    → trim head ≡ head
    → is_empty head ≡ false
    → ArePlain pairs
    → parse_props (join (codes ",") (head ∷ renders pairs))
      ≡ record { head = some head; pairs = insert_all pairs no_rows }
unfolding parse_props read_parts
parse_props-join head pairs eq comma t filled h =
    ap (λ parts. read_parts true parts (record { head = none; pairs = no_rows }))
      (split-join b',' head (renders pairs) (comma, renders-AllFree pairs h))
    ∙ ap (read_parts false (renders pairs)) (read_part-head head eq t filled)
    ∙ read_parts-pairs pairs (record { head = some head; pairs = no_rows }) h
