-- ===== src/Schema.antt =====
-- schema_sanitizer.rs: the JSON schema of a tool in the form that a model's provider takes. Numbers wrap
-- as the release build's do.
pub mod Gemini
pub mod OpenAi
pub mod TopLevel
pub mod Clean
pub mod Types
pub mod Single
pub mod Resolution
pub mod Examples
use adk_gateway.Common.{
  String, List, [], ◌∷◌, Option, none, some, Bool, false, ◌||◌, if◌then◌else◌, str_eq,
}
use adk_gateway.Json.{
  Value, null, bool, number, string, array, object, Elements, no_elements, element, Members,
  no_members, member, get_field, as_str,
}

-- `Map::insert`: a name that is there keeps its place.
unfoldable pub insert_field : String → Value → Members → Members
insert_field name new no_members = member name new no_members
insert_field name new (member held value rest) =
    if str_eq held name
    then member held new rest
    else member held value (insert_field name new rest)

-- The texts of an array but "null", in order.
unfoldable pub non_null_types : Elements → List String
non_null_types no_elements = []
non_null_types (element (string s) rest) =
    let later = non_null_types rest in if str_eq s "null" then later else s ∷ later
non_null_types (element null rest) = non_null_types rest
non_null_types (element (bool b) rest) = non_null_types rest
non_null_types (element (number n) rest) = non_null_types rest
non_null_types (element (array vs) rest) = non_null_types rest
non_null_types (element (object fs) rest) = non_null_types rest

abbrev is_null_text : Option String → Bool
is_null_text none = false
is_null_text (some text) = str_eq text "null"

unfoldable pub has_null : Elements → Bool
has_null no_elements = false
has_null (element value rest) = is_null_text (as_str value) || has_null rest

abbrev pub first_type : List String → Option String
first_type [] = none
first_type (text ∷ rest) = some text

abbrev pub type_elements : Option Value → Elements
type_elements (some (array elements)) = elements
type_elements (some null) = no_elements
type_elements (some (bool b)) = no_elements
type_elements (some (number n)) = no_elements
type_elements (some (string s)) = no_elements
type_elements (some (object fs)) = no_elements
type_elements none = no_elements

-- `resolved_type`: the first type that is not null, where `type` is an array.
unfoldable pub resolved_type : Members → Option String
unfolding non_null_types
resolved_type fields = first_type (non_null_types (type_elements (get_field "type" fields)))
