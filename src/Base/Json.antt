-- ===== src/Base/Json.antt =====
-- JSON documents (serde_json's `Value`), as far as the program reads and changes them.
use Prim.Native.Nat.{ℕ}
use mathlib.Core.Bool.{Bool}
use mathlib.Core.Option.{Option, none, some}
use mathlib.Core.List.{List, [], ◌∷◌}
use kubevirt_webgui.Base.Tests.{if◌then◌else◌}
use kubevirt_webgui.Base.Text.{Str, str_eq}

-- An integer that fits `u64` is a number; another number is as it is printed.
mutual
  pub data Json : Type 0 where
    null : Json
    bool : Bool → Json
    number : ℕ → Json
    other_number : Str → Json
    string : Str → Json
    array : Items → Json
    object : Members → Json

  pub data Items : Type 0 where
    end : Items
    item : Json → Items → Items

  pub data Members : Type 0 where
    empty : Members
    member : Str → Json → Members → Members

-- An object has each key once, in no particular order.
unfoldable pub find : Str → Members → Option Json
find key empty = none
find key (member k v rest) = let later = find key rest in if str_eq k key then some v else later

-- `Value::get`, of objects.
unfoldable pub field : Str → Json → Option Json
unfolding find
field key (object ms) = find key ms
field key _ = none

unfoldable pub field_of : Str → Option Json → Option Json
unfolding field
field_of key none = none
field_of key (some v) = field key v

-- `Value::as_str`.
abbrev pub as_str : Option Json → Option Str
as_str (some (string s)) = some s
as_str _ = none

abbrev pub or_null : Option Json → Json
or_null none = null
or_null (some v) = v

abbrev pub items_of : Items → List Json
items_of end = []
items_of (item v rest) = v ∷ items_of rest

-- `as_array`, and no items for what is no array.
abbrev pub as_list : Option Json → List Json
as_list (some (array items)) = items_of items
as_list _ = []

-- `entry(key).or_insert(v)`.
unfoldable pub or_insert : Str → Json → Members → Members
unfolding find
or_insert key v ms = elim (find key ms) [ none ↦ member key v ms | some w ↦ ms ]

unfoldable pub delete : Str → Members → Members
delete key empty = empty
delete key (member k v rest) =
    let later = delete key rest in if str_eq k key then later else member k v later

-- The value of a key changed, if it is there.
unfoldable pub change : Str → (Json → Json) → Members → Members
change key f empty = empty
change key f (member k v rest) =
    let later = change key f rest in if str_eq k key then member k (f v) rest else member k v later
