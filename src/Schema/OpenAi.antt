-- ===== src/Schema/OpenAi.antt =====
-- OpenAISanitizer of schema_sanitizer.rs, IdentitySanitizer, and how gateway.rs picks one for a model.
use Prim.Native.Char.{code}
use Prim.Native.String.{[], ◌∷◌, slice}
use text.Mathlib.Text.{starts_with}
use adk_gateway.Common.{
  ℕ, zero, suc, ◌+◌, ◌/◌, ◌%◌, String, Option, none, some, Bool, true, false, ◌&&◌, ◌||◌, not,
  if◌then◌else◌, str_eq, ltb, ◌==◌, is_some, concat,
}
use adk_gateway.Json.{
  Value, null, bool, number, string, array, object, Elements, no_elements, element, Members,
  no_members, member, get_field, as_str,
}
use adk_gateway.Schema.{insert_field, resolved_type}
use adk_gateway.Schema.Gemini.{put, items_of, type_text}
use adk_gateway.Schema.Gemini as Gemini

-- `{}` of a number: its decimal digits.
abbrev digit : ℕ → String
digit n = slice "0123456789" n (n + 1)

unfoldable decimal_from : ℕ → ℕ → String
decimal_from zero n = ""
decimal_from (suc fuel) n =
    let front = decimal_from fuel (n / 10) in
    if ltb n 10 then digit n else concat front (digit (n % 10))

unfoldable pub param_name : ℕ → String
unfolding decimal_from
param_name i = concat "arg" (decimal_from (i + 1) i)

-- The schemas of a tuple as properties "arg0", "arg1" and so on, and the names as `required`.
unfoldable pub positional : ℕ → Elements → Members
unfolding param_name
positional i no_elements = no_members
positional i (element value rest) = member (param_name i) value (positional (i + 1) rest)

unfoldable pub positional_names : ℕ → Elements → Elements
unfolding param_name
positional_names i no_elements = no_elements
positional_names i (element value rest) =
    element (string (param_name i)) (positional_names (i + 1) rest)

-- The object that stands for a tuple, with its elements sanitized.
unfoldable pub tuple_object : Elements → Value
unfolding positional positional_names
tuple_object sanitized = object (
    member "type" (string "object") (
      member "properties" (object (positional 0 sanitized))
        (member "required" (array (positional_names 0 sanitized)) no_members)))

abbrev is_object : Value → Bool
is_object (object fields) = true
is_object (array values) = false
is_object null = false
is_object (bool b) = false
is_object (number n) = false
is_object (string s) = false

abbrev all_objects : Elements → Bool
all_objects no_elements = true
all_objects (element value rest) = is_object value && all_objects rest

abbrev is_tuple : Value → Bool
is_tuple (array no_elements) = false
is_tuple (array (element first rest)) = all_objects (element first rest)
is_tuple (object fields) = false
is_tuple null = false
is_tuple (bool b) = false
is_tuple (number n) = false
is_tuple (string s) = false

abbrev pub elements_of : Value → Elements
elements_of (array values) = values
elements_of (object fields) = no_elements
elements_of null = no_elements
elements_of (bool b) = no_elements
elements_of (number n) = no_elements
elements_of (string s) = no_elements

-- One round of the loop, with the sanitized value.
unfoldable pub add_field : Option String → String → Value → Value → Members → Members
unfolding insert_field tuple_object
add_field single key value clean made =
    if str_eq key "propertyNames"
    then made
    else if str_eq key "type" && is_some single
    then insert_field "type" (type_text single clean) made
    else if str_eq key "items"
    then put "items" (items_of clean) made
    else if is_tuple value
    then insert_field key (tuple_object (elements_of clean)) made
    else insert_field key clean made

unfoldable mutual
  unfolding resolved_type add_field

  pub sanitize_recursive : Value → Value
  sanitize_recursive (object fields) =
      object (sanitize_members (resolved_type fields) fields no_members)
  sanitize_recursive (array values) = array (sanitize_elements values)
  sanitize_recursive null = null
  sanitize_recursive (bool b) = bool b
  sanitize_recursive (number n) = number n
  sanitize_recursive (string s) = string s

  pub sanitize_elements : Elements → Elements
  sanitize_elements no_elements = no_elements
  sanitize_elements (element value rest) =
      element (sanitize_recursive value) (sanitize_elements rest)

  pub sanitize_members : Option String → Members → Members → Members
  sanitize_members single no_members made = made
  sanitize_members single (member key value rest) made =
      sanitize_members single rest (add_field single key value (sanitize_recursive value) made)

abbrev is_empty_map : Members → Bool
is_empty_map no_members = true
is_empty_map (member key value rest) = false

abbrev text_of : Option Value → Option String
text_of none = none
text_of (some value) = as_str value

abbrev is_object_text : Option String → Bool
is_object_text none = false
is_object_text (some text) = str_eq text "object"

unfoldable pub ensure_object_type : Value → Value
unfolding insert_field sanitize_recursive tuple_object
ensure_object_type (array values) = tuple_object (sanitize_elements values)
ensure_object_type (object fields) =
    if is_object_text (text_of (get_field "type" fields))
    then object fields
    else if is_some (get_field "properties" fields)
    then object (insert_field "type" (string "object") fields)
    else if not (is_some (text_of (get_field "type" fields))) && not (is_empty_map fields)
    then object (insert_field "type" (string "object") fields)
    else object fields
ensure_object_type null = null
ensure_object_type (bool b) = bool b
ensure_object_type (number n) = number n
ensure_object_type (string s) = string s

abbrev empty_object : Value
empty_object =
    object (member "type" (string "object") (member "properties" (object no_members) no_members))

unfoldable pub sanitize : Value → Value
unfolding sanitize_recursive ensure_object_type tuple_object
sanitize (array no_elements) = empty_object
sanitize (array (element first rest)) = tuple_object (sanitize_elements (element first rest))
sanitize (object fields) = ensure_object_type (sanitize_recursive (object fields))
sanitize null = ensure_object_type null
sanitize (bool b) = ensure_object_type (bool b)
sanitize (number n) = ensure_object_type (number n)
sanitize (string s) = ensure_object_type (string s)

pub data Sanitizer : Type 0 where
  gemini open_ai identity : Sanitizer

-- `split('/').next()`.
unfoldable pub before_slash : String → String
before_slash [] = []
before_slash (c ∷ rest) = let front = before_slash rest in if code c == 47 then [] else c ∷ front

unfoldable pub sanitizer_for : String → Sanitizer
unfolding before_slash
sanitizer_for model =
    let provider = before_slash model in
    if str_eq provider "gemini" || str_eq provider "google"
    then gemini
    else if str_eq provider "openai"
        || starts_with model "gpt-"
        || starts_with model "o1-"
        || starts_with model "o3-"
        || starts_with model "o4-"
        || starts_with model "codex-"
        || starts_with model "chatgpt-"
    then open_ai
    else identity

unfoldable pub sanitize_for : String → Value → Value
unfolding sanitizer_for sanitize
sanitize_for model schema = elim (sanitizer_for model) [
  | gemini ↦ Gemini.sanitize schema
  | open_ai ↦ sanitize schema
  | identity ↦ schema
]
