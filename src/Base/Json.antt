-- ===== src/Base/Json.antt =====
-- The values of serde_json that src/mcp_gateway.rs and src/ml_dsa.rs read and make.
use abir_guard.Base.{Bool, Option, none, some, List, [], ◌∷◌, Str, bytes_eq, if◌then◌else◌}

-- A number is its text; the members of an object have different names.
mutual
  pub data Value : Type 0 where
    null : Value
    boolean : Bool → Value
    number : Str → Value
    string : Str → Value
    array : Elements → Value
    object : Members → Value

  pub data Elements : Type 0 where
    no_element : Elements
    element : Value → Elements → Elements

  pub data Members : Type 0 where
    end : Members
    member : Str → Value → Members → Members

abbrev find_member : Str → Members → Option Value
find_member name end = none
find_member name (member other value rest) =
    if bytes_eq other name then some value else find_member name rest

-- `Value::get` with a name, and `Value::as_str`.
unfoldable pub get : Str → Value → Option Value
get name (object fields) = find_member name fields
get name value = none

abbrev pub as_str : Value → Option Str
as_str (string text) = some text
as_str value = none

abbrev fields_of : List (Str × Value) → Members
fields_of [] = end
fields_of ((name, value) ∷ rest) = member name value (fields_of rest)

-- An object, and an array of strings, as `json!` makes them.
abbrev pub members : List (Str × Value) → Value
members fields = object (fields_of fields)

abbrev elements_of : List Str → Elements
elements_of [] = no_element
elements_of (text ∷ rest) = element (string text) (elements_of rest)

abbrev pub texts : List Str → Value
texts strings = array (elements_of strings)
