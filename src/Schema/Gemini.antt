-- ===== src/Schema/Gemini.antt =====
-- GeminiSanitizer of schema_sanitizer.rs. `serde_json` keeps the order of the fields.
use adk_gateway.Common.{
  ℕ, zero, suc, ◌+◌, ◌-◌, ◌%◌, String, Option, none, some, Bool, true, false, ◌&&◌, if◌then◌else◌,
  str_eq, ltb, ◌==◌, is_some,
}
use adk_gateway.Json.{
  ℤ, pos, negsuc, Number, int, float, Value, null, bool, number, string, array, object, Elements,
  no_elements, element, Members, no_members, member, get_field, as_str,
}
use adk_gateway.Schema.{insert_field, has_null, type_elements, resolved_type}

-- `n + 1` and `n - 1` on an `i64`, and the numbers that follow and precede a bound.
abbrev pub i64_successor : ℤ → ℤ
i64_successor (pos n) = if n == 9_223_372_036_854_775_807 then negsuc n else pos (n + 1)
i64_successor (negsuc zero) = pos 0
i64_successor (negsuc (suc n)) = negsuc n

abbrev pub i64_predecessor : ℤ → ℤ
i64_predecessor (pos zero) = negsuc 0
i64_predecessor (pos (suc n)) = pos n
i64_predecessor (negsuc n) = if n == 9_223_372_036_854_775_807 then pos n else negsuc (n + 1)

abbrev pub is_i64 : ℕ → Bool
is_i64 n = ltb n 9_223_372_036_854_775_808

-- `exclusiveMinimum` as a `minimum`: `as_i64` first, then `as_u64`, and nothing for a float.
unfoldable pub next_bound : Value → Option Number
next_bound (number (int (pos n))) =
    if is_i64 n
    then some (int (i64_successor (pos n)))
    else some (int (pos ((n + 1) % 18_446_744_073_709_551_616)))
next_bound (number (int (negsuc n))) = some (int (i64_successor (negsuc n)))
next_bound (number (float bits)) = none
next_bound null = none
next_bound (bool b) = none
next_bound (string s) = none
next_bound (array vs) = none
next_bound (object fs) = none

unfoldable pub previous_bound : Value → Option Number
previous_bound (number (int (pos n))) =
    if is_i64 n then some (int (i64_predecessor (pos n))) else some (int (pos (n - 1)))
previous_bound (number (int (negsuc n))) = some (int (i64_predecessor (negsuc n)))
previous_bound (number (float bits)) = none
previous_bound null = none
previous_bound (bool b) = none
previous_bound (string s) = none
previous_bound (array vs) = none
previous_bound (object fs) = none

-- What the function reads of an object before its loop.
pub record Resolved : Type 0 where
  pub single_type : Option String
  pub add_nullable : Bool
  pub is_integer_type : Bool

abbrev is_integer : Option String → Bool
is_integer none = false
is_integer (some name) = str_eq name "integer"

abbrev text_of : Option Value → Option String
text_of none = none
text_of (some value) = as_str value

unfoldable pub resolve : Members → Resolved
unfolding resolved_type has_null
resolve fields =
    let single = resolved_type fields in
    record {
      single_type = single;
      add_nullable = has_null (type_elements (get_field "type" fields)) && is_some single;
      is_integer_type =
          if is_some single
          then is_integer single
          else is_integer (text_of (get_field "type" fields));
    }

abbrev pub put : String → Option Value → Members → Members
put name none made = made
put name (some value) made = insert_field name value made

abbrev pub put_number : String → Option Number → Members → Members
put_number name none made = made
put_number name (some value) made = insert_field name (number value) made

abbrev pub type_text : Option String → Value → Value
type_text none clean = clean
type_text (some name) clean = string name

-- `items`: the first schema of an array, if it has one. An array is sanitized element by element, so
-- it is read off the sanitized value.
abbrev pub items_of : Value → Option Value
items_of (array no_elements) = none
items_of (array (element first rest)) = some first
items_of (object fields) = some (object fields)
items_of null = some null
items_of (bool b) = some (bool b)
items_of (number n) = some (number n)
items_of (string s) = some (string s)

-- One round of the loop, with the sanitized value.
unfoldable pub add_field : Resolved → String → Value → Value → Members → Members
unfolding insert_field next_bound previous_bound
add_field resolved key value clean made =
    if str_eq key "propertyNames"
    then made
    else if str_eq key "type" && is_some resolved.single_type
    then insert_field "type" (type_text resolved.single_type clean) made
    else if str_eq key "exclusiveMinimum" && resolved.is_integer_type
    then put_number "minimum" (next_bound value) made
    else if str_eq key "exclusiveMaximum" && resolved.is_integer_type
    then put_number "maximum" (previous_bound value) made
    else if str_eq key "items"
    then put "items" (items_of clean) made
    else insert_field key clean made

abbrev pub with_nullable : Bool → Members → Members
with_nullable true made = insert_field "nullable" (bool true) made
with_nullable false made = made

unfoldable mutual
  unfolding resolve add_field

  pub sanitize_recursive : Value → Value
  sanitize_recursive (object fields) = object (
      with_nullable (resolve fields).add_nullable
        (sanitize_members (resolve fields) fields no_members))
  sanitize_recursive (array values) = array (sanitize_elements values)
  sanitize_recursive null = null
  sanitize_recursive (bool b) = bool b
  sanitize_recursive (number n) = number n
  sanitize_recursive (string s) = string s

  pub sanitize_elements : Elements → Elements
  sanitize_elements no_elements = no_elements
  sanitize_elements (element value rest) =
      element (sanitize_recursive value) (sanitize_elements rest)

  -- The loop over the fields, with the map that it has built.
  pub sanitize_members : Resolved → Members → Members → Members
  sanitize_members resolved no_members made = made
  sanitize_members resolved (member key value rest) made =
      sanitize_members resolved rest (add_field resolved key value (sanitize_recursive value) made)

unfoldable pub sanitize : Value → Value
unfolding sanitize_recursive
sanitize schema = sanitize_recursive schema
