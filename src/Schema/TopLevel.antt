-- ===== src/Schema/TopLevel.antt =====
-- Which schemas have `"type": "object"` at their top when they have passed the OpenAISanitizer of
-- schema_sanitizer.rs.
use adk_gateway.Common.{String, Option, none, some, ◌≡◌, ◌≢◌, ◌⊎◌}
use adk_gateway.Json.{
  Value, null, bool, number, string, array, object, Members, no_members, member, get_field, get,
}
use adk_gateway.Schema.OpenAi.{sanitize, sanitize_recursive}

abbrev pub object_type : Option Value
object_type = some (string "object")

abbrev pub members_of : Value → Members
members_of (object fields) = fields
members_of (array values) = no_members
members_of null = no_members
members_of (bool b) = no_members
members_of (number n) = no_members
members_of (string s) = no_members

-- No properties, and no field at all or a type that is another text.
abbrev pub IsLeftOut : Members → Type 0
IsLeftOut no_members = Unit
IsLeftOut (member key value rest) =
    (get_field "properties" (member key value rest) ≡ none)
    × ((text : String) × (get_field "type" (member key value rest) ≡ some (string text))
        × (text ≢ "object"))

abbrev pub Answers : Value → Type 0
Answers (array values) = get "type" (sanitize (array values)) ≡ object_type
Answers (object fields) =
    (get "type" (sanitize (object fields)) ≡ object_type)
    ⊎ ((sanitize (object fields) ≡ sanitize_recursive (object fields))
        × IsLeftOut (members_of (sanitize_recursive (object fields))))
Answers null = sanitize null ≡ null
Answers (bool b) = sanitize (bool b) ≡ bool b
Answers (number n) = sanitize (number n) ≡ number n
Answers (string s) = sanitize (string s) ≡ string s
