-- ===== src/Json.antt =====
-- `serde_json::Value`, as the crate documents it. A number keeps the text that `to_string` gives it.
-- A map is the list of its entries in the order of its iteration, each key once.
pub mod Exact
use gostly_ai_proxy.Base.{Bool, Option, none, some, Text, text_eq, ◌==◌, if◌then◌else◌}

mutual
  pub data Json : Type 0 where
    null : Json
    boolean : Bool → Json
    number : Text → Json
    string : Text → Json
    array : Items → Json
    object : Fields → Json

  pub data Items : Type 0 where
    no_items : Items
    item : Json → Items → Items

  pub data Fields : Type 0 where
    no_fields : Fields
    field : Text → Json → Fields → Fields

-- `map.get(key)`.
unfoldable pub get_field : Fields → Text → Option Json
get_field no_fields key = none
get_field (field k v rest) key = if k == key then some v else get_field rest key

-- `map.insert(key, value)`: in place where the key is there.
unfoldable pub insert_field : Fields → Text → Json → Fields
insert_field no_fields key value = field key value no_fields
insert_field (field k v rest) key value =
    if k == key then field key value rest else field k v (insert_field rest key value)

-- `map.values()`.
abbrev pub field_values : Fields → Items
field_values no_fields = no_items
field_values (field k v rest) = item v (field_values rest)
