-- ===== src/Schema/Clean.antt =====
-- What no schema holds when it has passed the GeminiSanitizer of schema_sanitizer.rs.
use adk_gateway.Common.{
  String, Option, none, some, Bool, true, false, ◌&&◌, str_eq, is_some, ◌≡◌, refl, inl, inr,
  Bool-cases,
}
use adk_gateway.Json.{
  Number, Value, null, bool, number, string, array, object, Elements, no_elements, element, Members,
  no_members, member,
}
use adk_gateway.Schema.{insert_field}
use adk_gateway.Schema.Gemini.{
  Resolved, resolve, next_bound, previous_bound, put, put_number, type_text, items_of, add_field,
  with_nullable, sanitize_recursive, sanitize_elements, sanitize_members, sanitize,
}

-- No field of the value, at any depth, is called `propertyNames`.
abbrev mutual
  pub IsClean : Value → Type 0
  IsClean (object fields) = AreClean fields
  IsClean (array values) = HoldsClean values
  IsClean null = Unit
  IsClean (bool b) = Unit
  IsClean (number n) = Unit
  IsClean (string s) = Unit

  pub HoldsClean : Elements → Type 0
  HoldsClean no_elements = Unit
  HoldsClean (element value rest) = IsClean value × HoldsClean rest

  pub AreClean : Members → Type 0
  AreClean no_members = Unit
  AreClean (member name value rest) =
      (str_eq name "propertyNames" ≡ false) × IsClean value × AreClean rest

insert_field-AreClean :
    (name : String) (value : Value) (made : Members)
    → str_eq name "propertyNames" ≡ false
    → IsClean value
    → AreClean made
    → AreClean (insert_field name value made)
unfolding insert_field
insert_field-AreClean name value no_members n v m = (n, v, tt)
insert_field-AreClean name value (member held old rest) n v m =
    elim (Bool-cases (str_eq held name)) [
      | inl e ↦ rw e (m.0, v, m.2)
      | inr e ↦ rw e (m.0, m.1, insert_field-AreClean name value rest n v m.2)
    ]

abbrev IsCleanIfSome : Option Value → Type 0
IsCleanIfSome none = Unit
IsCleanIfSome (some found) = IsClean found

put-AreClean :
    (name : String) (value : Option Value) (made : Members)
    → str_eq name "propertyNames" ≡ false
    → IsCleanIfSome value
    → AreClean made
    → AreClean (put name value made)
put-AreClean name none made n v m = m
put-AreClean name (some found) made n v m = insert_field-AreClean name found made n v m

put_number-AreClean :
    (name : String) (value : Option Number) (made : Members)
    → str_eq name "propertyNames" ≡ false
    → AreClean made
    → AreClean (put_number name value made)
put_number-AreClean name none made n m = m
put_number-AreClean name (some found) made n m =
    insert_field-AreClean name (number found) made n tt m

type_text-IsClean :
    (name : Option String) (clean : Value) → IsClean clean → IsClean (type_text name clean)
type_text-IsClean none clean c = c
type_text-IsClean (some name) clean c = tt

items_of-IsClean : (clean : Value) → IsClean clean → IsCleanIfSome (items_of clean)
items_of-IsClean (array no_elements) c = tt
items_of-IsClean (array (element first rest)) c = c.0
items_of-IsClean (object fields) c = c
items_of-IsClean null c = tt
items_of-IsClean (bool b) c = tt
items_of-IsClean (number n) c = tt
items_of-IsClean (string s) c = tt

add_field-AreClean :
    (resolved : Resolved) (key : String) (value clean : Value) (made : Members)
    → IsClean clean
    → AreClean made
    → AreClean (add_field resolved key value clean made)
unfolding add_field
add_field-AreClean resolved key value clean made c m =
    elim (Bool-cases (str_eq key "propertyNames")) [
      | inl a ↦ rw a m
      | inr a ↦ elim (Bool-cases (str_eq key "type" && is_some resolved.single_type)) [
        | inl b ↦
            rw (a, b)
              (insert_field-AreClean "type" (type_text resolved.single_type clean) made refl
                (type_text-IsClean resolved.single_type clean c) m)
        | inr b ↦ elim (Bool-cases (str_eq key "exclusiveMinimum" && resolved.is_integer_type)) [
          | inl d ↦ rw (a, b, d) (put_number-AreClean "minimum" (next_bound value) made refl m)
          | inr d ↦ elim (Bool-cases (str_eq key "exclusiveMaximum" && resolved.is_integer_type)) [
            | inl e ↦
                rw (a, b, d, e) (put_number-AreClean "maximum" (previous_bound value) made refl m)
            | inr e ↦ elim (Bool-cases (str_eq key "items")) [
              | inl f ↦
                  rw (a, b, d, e, f)
                    (put-AreClean "items" (items_of clean) made refl (items_of-IsClean clean c) m)
              | inr f ↦ rw (a, b, d, e, f) (insert_field-AreClean key clean made a c m)
            ]
          ]
        ]
      ]
    ]

with_nullable-AreClean :
    (nullable : Bool) (made : Members) → AreClean made → AreClean (with_nullable nullable made)
with_nullable-AreClean true made m = insert_field-AreClean "nullable" (bool true) made refl tt m
with_nullable-AreClean false made m = m

mutual
  unfolding sanitize_recursive

  sanitize_recursive-IsClean : (schema : Value) → IsClean (sanitize_recursive schema)
  sanitize_recursive-IsClean (object fields) =
      with_nullable-AreClean (resolve fields).add_nullable _
        (sanitize_members-AreClean (resolve fields) fields no_members tt)
  sanitize_recursive-IsClean (array values) = sanitize_elements-HoldsClean values
  sanitize_recursive-IsClean null = tt
  sanitize_recursive-IsClean (bool b) = tt
  sanitize_recursive-IsClean (number n) = tt
  sanitize_recursive-IsClean (string s) = tt

  sanitize_elements-HoldsClean : (values : Elements) → HoldsClean (sanitize_elements values)
  sanitize_elements-HoldsClean no_elements = tt
  sanitize_elements-HoldsClean (element value rest) =
      (sanitize_recursive-IsClean value, sanitize_elements-HoldsClean rest)

  sanitize_members-AreClean :
      (resolved : Resolved) (rest made : Members)
      → AreClean made
      → AreClean (sanitize_members resolved rest made)
  sanitize_members-AreClean resolved no_members made m = m
  sanitize_members-AreClean resolved (member key value rest) made m =
      sanitize_members-AreClean resolved rest _ (
        add_field-AreClean resolved key value (sanitize_recursive value) made
          (sanitize_recursive-IsClean value) m)

-- Whatever schema it is given, the Gemini sanitizer returns one with no field called
-- `propertyNames` at any depth.
pub sanitize-IsClean : (schema : Value) → IsClean (sanitize schema)
unfolding sanitize
sanitize-IsClean schema = sanitize_recursive-IsClean schema
