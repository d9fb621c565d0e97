-- ===== src/Schema/Examples.antt =====
-- Runs of schema_sanitizer.rs at concrete schemas, and the instances of its theorems.
use adk_gateway.Common.{some, true, ◌≡◌, refl}
use adk_gateway.Json.{
  pos, negsuc, int, Value, bool, number, string, array, object, no_elements, element, no_members,
  member, get,
}
use adk_gateway.Schema.{insert_field, non_null_types, has_null, resolved_type}
use adk_gateway.Schema.Gemini.{sanitize, sanitize_recursive, resolve, add_field, next_bound}
use adk_gateway.Schema.OpenAi as OpenAi
use adk_gateway.Schema.OpenAi.{sanitizer_for, before_slash, gemini}
use adk_gateway.Schema.Clean.{IsClean, sanitize-IsClean}
use adk_gateway.Schema.Single.{IsSingle}
use adk_gateway.Schema.Resolution.{sanitize-IsSingle}

-- {"type": ["integer", "null"], "exclusiveMinimum": 0, "propertyNames": {}}.
abbrev bounded : Value
bounded = object (
    member "type" (array (element (string "integer") (element (string "null") no_elements))) (
      member "exclusiveMinimum" (number (int (pos 0)))
        (member "propertyNames" (object no_members) no_members)))

bounded_sanitized :
    sanitize bounded
    ≡ object (
        member "type"
          (string "integer")
          (member "minimum" (number (int (pos 1))) (member "nullable" (bool true) no_members)))
unfolding sanitize sanitize_recursive resolve resolved_type non_null_types has_null add_field
    insert_field next_bound
bounded_sanitized = refl

-- A parameter that a tool calls `propertyNames` is lost with the keyword.
parameter_lost :
    sanitize (
      object (
        member "properties"
          (object (member "propertyNames" (object no_members) no_members))
          no_members))
    ≡ object (member "properties" (object no_members) no_members)
unfolding sanitize sanitize_recursive resolve resolved_type non_null_types has_null add_field
    insert_field
parameter_lost = refl

-- The bound after the greatest `i64` wraps round to the least.
bound_wraps :
    next_bound (number (int (pos 9_223_372_036_854_775_807)))
    ≡ some (int (negsuc 9_223_372_036_854_775_807))
unfolding next_bound
bound_wraps = refl

gemini_model : sanitizer_for "google/gemini-2.5-pro" ≡ gemini
unfolding sanitizer_for before_slash
gemini_model = refl

abbrev untyped_text : Value
untyped_text = object (member "type" (string "string") no_members)

text_schema_stays : get "type" (OpenAi.sanitize untyped_text) ≡ some (string "string")
unfolding OpenAi.sanitize OpenAi.sanitize_recursive OpenAi.add_field OpenAi.ensure_object_type
    resolved_type non_null_types insert_field
text_schema_stays = refl

sanitize-IsClean_example : IsClean (sanitize bounded)
sanitize-IsClean_example = sanitize-IsClean bounded

sanitize-IsSingle_example : IsSingle (sanitize bounded)
sanitize-IsSingle_example =
    sanitize-IsSingle bounded (refl, (tt, (tt, tt)), (refl, tt, (refl, tt, tt)))
