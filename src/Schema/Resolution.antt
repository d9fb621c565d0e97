-- ===== src/Schema/Resolution.antt =====
-- The loop of the GeminiSanitizer of schema_sanitizer.rs, as it resolves the arrays of types.
use adk_gateway.Common.{
  String, Option, none, some, Bool, true, false, ◌&&◌, str_eq, is_some, ◌≡◌, refl, inl, inr, arith,
  Bool-cases, Option-cases, eq_iff, ◌∙◌,
}
use adk_gateway.Json.{
  Value, null, bool, number, string, array, object, Elements, no_elements, element, Members,
  no_members, member, get_field,
}
use adk_gateway.Schema.{insert_field, non_null_types, resolved_type}
use adk_gateway.Schema.Gemini.{
  Resolved, resolve, next_bound, previous_bound, type_text, add_field, with_nullable,
  sanitize_recursive, sanitize_elements, sanitize_members, sanitize,
}
use adk_gateway.Schema.Single.{IsSingle, IsResolved-IsSingle}
use adk_gateway.Schema.Types.{
  IsMap, AreMaps, HoldsMaps, IsResolved, HoldsResolved, named_type, IsBuilt, insert_field-IsBuilt,
  put_number-IsBuilt, put_items-IsBuilt,
}

type_text-IsBuilt :
    (name : Option String) (clean : Value) (made : Members)
    → is_some name ≡ true
    → IsBuilt made
    → IsBuilt (insert_field "type" (type_text name clean) made)
unfolding non_null_types
type_text-IsBuilt none clean made h m = ground arith
type_text-IsBuilt (some name) clean made h m =
    insert_field-IsBuilt "type" (string name) made (λ e. refl) tt m

add_field-IsBuilt :
    (resolved : Resolved) (key : String) (value clean : Value) (made : Members)
    → (str_eq key "type" ≡ true → resolved.single_type ≡ none → named_type (some clean) ≡ none)
    → IsResolved clean
    → IsBuilt made
    → IsBuilt (add_field resolved key value clean made)
unfolding add_field non_null_types
add_field-IsBuilt resolved key value clean made t c m =
    elim (Bool-cases (str_eq key "propertyNames")) [
      | inl a ↦ rw a m
      | inr a ↦ elim (Bool-cases (str_eq key "type" && is_some resolved.single_type)) [
        | inl b ↦ rw (a, b) (type_text-IsBuilt resolved.single_type clean made (ground arith) m)
        | inr b ↦ elim (Bool-cases (str_eq key "exclusiveMinimum" && resolved.is_integer_type)) [
          | inl d ↦ rw (a, b, d) (put_number-IsBuilt "minimum" (next_bound value) made m)
          | inr d ↦ elim (Bool-cases (str_eq key "exclusiveMaximum" && resolved.is_integer_type)) [
            | inl e ↦ rw (a, b, d, e) (put_number-IsBuilt "maximum" (previous_bound value) made m)
            | inr e ↦ elim (Bool-cases (str_eq key "items")) [
              | inl f ↦ rw (a, b, d, e, f) (put_items-IsBuilt clean made c m)
              | inr f ↦
                  rw (a, b, d, e, f)
                    (insert_field-IsBuilt key clean made
                      (λ g. t g (ground (arith, b, g, Option-cases resolved.single_type))) c m)
            ]
          ]
        ]
      ]
    ]

with_nullable-IsBuilt :
    (nullable : Bool) (made : Members) → IsBuilt made → IsBuilt (with_nullable nullable made)
unfolding non_null_types
with_nullable-IsBuilt true made m =
    insert_field-IsBuilt "nullable" (bool true) made (λ e. refl) tt m
with_nullable-IsBuilt false made m = m

non_null_types-sanitize_elements :
    (values : Elements) → non_null_types (sanitize_elements values) ≡ non_null_types values
unfolding non_null_types sanitize_recursive
non_null_types-sanitize_elements no_elements = refl
non_null_types-sanitize_elements (element (string s) rest) =
    rw (non_null_types-sanitize_elements rest) refl
non_null_types-sanitize_elements (element null rest) = non_null_types-sanitize_elements rest
non_null_types-sanitize_elements (element (bool b) rest) = non_null_types-sanitize_elements rest
non_null_types-sanitize_elements (element (number n) rest) = non_null_types-sanitize_elements rest
non_null_types-sanitize_elements (element (array vs) rest) = non_null_types-sanitize_elements rest
non_null_types-sanitize_elements (element (object fs) rest) = non_null_types-sanitize_elements rest

-- A value names the types that it named before.
named_type-sanitize_recursive :
    (value : Value) → named_type (some (sanitize_recursive value)) ≡ named_type (some value)
unfolding sanitize_recursive
named_type-sanitize_recursive (array vs) = rw (non_null_types-sanitize_elements vs) refl
named_type-sanitize_recursive (object fs) = refl
named_type-sanitize_recursive null = refl
named_type-sanitize_recursive (bool b) = refl
named_type-sanitize_recursive (number n) = refl
named_type-sanitize_recursive (string s) = refl

-- The fields still to come have no array of types that the head of the function has not seen.
abbrev Agrees : Resolved → Members → Type 0
Agrees resolved rest = resolved.single_type ≡ none → resolved_type rest ≡ none

Agrees-head :
    (resolved : Resolved) (key : String) (value : Value) (rest : Members)
    → Agrees resolved (member key value rest)
    → str_eq key "type" ≡ true
    → resolved.single_type ≡ none
    → named_type (some value) ≡ none
unfolding resolved_type
Agrees-head resolved key value rest a e s = rw e at (a s)

Agrees-tail :
    (resolved : Resolved) (key : String) (value : Value) (rest : Members)
    → get_field key rest ≡ none
    → Agrees resolved (member key value rest)
    → Agrees resolved rest
unfolding resolved_type non_null_types
Agrees-tail resolved key value rest u a s = elim (Bool-cases (str_eq key "type")) [
  | inl e ↦
      let k : key ≡ "type" = (eq_iff key "type").0 e in
      let missing : get_field "type" rest ≡ none = rw k at u in rw missing refl
  | inr e ↦ rw e at (a s)
]

empty-IsBuilt : IsBuilt no_members
unfolding resolved_type non_null_types
empty-IsBuilt = (refl, tt)

mutual
  unfolding sanitize_recursive resolve

  sanitize_recursive-IsResolved :
      (schema : Value) → IsMap schema → IsResolved (sanitize_recursive schema)
  sanitize_recursive-IsResolved (object fields) h =
      with_nullable-IsBuilt (resolve fields).add_nullable _
        (sanitize_members-IsBuilt (resolve fields) fields no_members h (λ s. s) empty-IsBuilt)
  sanitize_recursive-IsResolved (array values) h = sanitize_elements-HoldsResolved values h
  sanitize_recursive-IsResolved null h = tt
  sanitize_recursive-IsResolved (bool b) h = tt
  sanitize_recursive-IsResolved (number n) h = tt
  sanitize_recursive-IsResolved (string s) h = tt

  sanitize_elements-HoldsResolved :
      (values : Elements) → HoldsMaps values → HoldsResolved (sanitize_elements values)
  sanitize_elements-HoldsResolved no_elements h = tt
  sanitize_elements-HoldsResolved (element value rest) h =
      (sanitize_recursive-IsResolved value h.0, sanitize_elements-HoldsResolved rest h.1)

  sanitize_members-IsBuilt :
      (resolved : Resolved) (rest made : Members)
      → AreMaps rest
      → Agrees resolved rest
      → IsBuilt made
      → IsBuilt (sanitize_members resolved rest made)
  sanitize_members-IsBuilt resolved no_members made h a m = m
  sanitize_members-IsBuilt resolved (member key value rest) made h a m =
      sanitize_members-IsBuilt resolved rest _ h.2 (Agrees-tail resolved key value rest h.0 a) (
        add_field-IsBuilt resolved key value (sanitize_recursive value) made
          (λ e s. named_type-sanitize_recursive value ∙ Agrees-head resolved key value rest a e s)
          (sanitize_recursive-IsResolved value h.1) m)

-- Whatever schema it is given, whose objects name no field twice, the Gemini sanitizer returns one in
-- which no object, at any depth, has an array for its `type` with a text in it other than "null".
pub sanitize-IsSingle : (schema : Value) → IsMap schema → IsSingle (sanitize schema)
unfolding sanitize
sanitize-IsSingle schema h =
    IsResolved-IsSingle (sanitize_recursive schema) (sanitize_recursive-IsResolved schema h)
