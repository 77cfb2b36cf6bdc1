-- ===== src/ApplyConfiguration/Json.antt =====
-- What encoding/json makes of a configuration. The members of an object stand in the order of the
-- fields; a dictionary is what it makes of a map, whose keys have no order here.
use agentic_platform.Prelude.{String, Bool, Option, none, some, List, [], ◌∷◌}
use agentic_platform.Prelude.Int.{ℤ}
use agentic_platform.ApplyConfiguration.Maps.{GoMap}

mutual
  pub data Json : Type 0 where
    null : Json
    boolean : Bool → Json
    number : ℤ → Json
    text : String → Json
    array : Items → Json
    object : Members → Json
    dictionary : (String → Entry) → Json

  pub data Items : Type 0 where
    no_items : Items
    item : Json → Items → Items

  pub data Members : Type 0 where
    no_members : Members
    member : String → Json → Members → Members

  pub data Entry : Type 0 where
    absent : Entry
    present : Json → Entry

-- A type of another package, with what encoding/json makes of its values.
pub record Encoded : Type 1 where
  pub Carrier : Type 0
  pub encode : Carrier → Json

-- The fields of a struct by the names of their tags, in order; `none` is left out by `omitempty`.
abbrev pub Fields : Type 0
Fields = List (String × Option Json)

abbrev pub members_of : Fields → Members
members_of [] = no_members
members_of ((name, none) ∷ fs) = members_of fs
members_of ((name, some j) ∷ fs) = member name j (members_of fs)

abbrev pub object_of : Fields → Json
object_of fs = object (members_of fs)

module _ {A : Type 0} (encode : A → Json) where
  -- `*T` with `omitempty`
  abbrev pub pointer_field : Option A → Option Json
  pointer_field none = none
  pointer_field (some a) = some (encode a)

  abbrev pub items_of : List A → Items
  items_of [] = no_items
  items_of (x ∷ xs) = item (encode x) (items_of xs)

  -- `[]T` with `omitempty`
  abbrev pub slice_field : List A → Option Json
  slice_field [] = none
  slice_field (x ∷ xs) = some (array (item (encode x) (items_of xs)))

  abbrev pub entry_of : Option A → Entry
  entry_of none = absent
  entry_of (some a) = present (encode a)

  -- `map[string]T` with `omitempty`; the builders make no map without an entry.
  abbrev pub map_field : GoMap A → Option Json
  map_field none = none
  map_field (some m) = some (dictionary (λ k. entry_of (m k)))

  -- A slice behind a pointer: `null` where it is nil.
  abbrev pub slice_value : Option (List A) → Json
  slice_value none = null
  slice_value (some xs) = array (items_of xs)
