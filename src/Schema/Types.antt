-- ===== src/Schema/Types.antt =====
-- The `type` fields of a schema that has passed the GeminiSanitizer of schema_sanitizer.rs.
use adk_gateway.Common.{
  String, Option, none, some, true, if◌then◌else◌, str_eq, ◌≡◌, refl, inl, inr, arith, Bool-cases,
  eq_iff,
}
use adk_gateway.Json.{
  Number, Value, null, bool, number, string, array, object, Elements, no_elements, element, Members,
  no_members, member, get_field,
}
use adk_gateway.Schema.{insert_field, non_null_types, type_elements, resolved_type, first_type}
use adk_gateway.Schema.Gemini.{put, put_number, items_of}

-- No object names a field twice, as no `serde_json::Map` does.
abbrev mutual
  pub IsMap : Value → Type 0
  IsMap (object fields) = AreMaps fields
  IsMap (array values) = HoldsMaps values
  IsMap null = Unit
  IsMap (bool b) = Unit
  IsMap (number n) = Unit
  IsMap (string s) = Unit

  pub HoldsMaps : Elements → Type 0
  HoldsMaps no_elements = Unit
  HoldsMaps (element value rest) = IsMap value × HoldsMaps rest

  pub AreMaps : Members → Type 0
  AreMaps no_members = Unit
  AreMaps (member name value rest) = (get_field name rest ≡ none) × IsMap value × AreMaps rest

-- At no depth is there an array of types left for the head of the function to resolve.
abbrev mutual
  pub IsResolved : Value → Type 0
  IsResolved (object fields) = (resolved_type fields ≡ none) × AreResolved fields
  IsResolved (array values) = HoldsResolved values
  IsResolved null = Unit
  IsResolved (bool b) = Unit
  IsResolved (number n) = Unit
  IsResolved (string s) = Unit

  pub HoldsResolved : Elements → Type 0
  HoldsResolved no_elements = Unit
  HoldsResolved (element value rest) = IsResolved value × HoldsResolved rest

  pub AreResolved : Members → Type 0
  AreResolved no_members = Unit
  AreResolved (member name value rest) = IsResolved value × AreResolved rest

abbrev pub named_type : Option Value → Option String
named_type value = first_type (non_null_types (type_elements value))

pub get_field-insert_field :
    (name key : String) (value : Value) (made : Members)
    → get_field key (insert_field name value made)
      ≡ (if str_eq name key then some value else get_field key made)
unfolding insert_field
get_field-insert_field name key value no_members = refl
get_field-insert_field name key value (member held old rest) = ground (
  arith,
  get_field-insert_field name key value rest,
  eq_iff held name,
  eq_iff held key,
  eq_iff name key,
)

-- What the loop has built so far.
abbrev pub IsBuilt : Members → Type 0
IsBuilt made = (resolved_type made ≡ none) × AreResolved made

insert_field-AreResolved :
    (name : String) (value : Value) (made : Members)
    → IsResolved value
    → AreResolved made
    → AreResolved (insert_field name value made)
unfolding insert_field
insert_field-AreResolved name value no_members v m = (v, tt)
insert_field-AreResolved name value (member held old rest) v m =
    elim (Bool-cases (str_eq held name)) [
      | inl e ↦ rw e (v, m.1)
      | inr e ↦ rw e (m.0, insert_field-AreResolved name value rest v m.1)
    ]

-- A field other than `type`, or a `type` that is no such array.
pub insert_field-IsBuilt :
    (name : String) (value : Value) (made : Members)
    → (str_eq name "type" ≡ true → named_type (some value) ≡ none)
    → IsResolved value
    → IsBuilt made
    → IsBuilt (insert_field name value made)
unfolding resolved_type
insert_field-IsBuilt name value made t v m = (
  elim (Bool-cases (str_eq name "type")) [
    | inl e ↦ rw (get_field-insert_field name "type" value made, e) (t e)
    | inr e ↦ rw (get_field-insert_field name "type" value made, e) m.0
  ],
  insert_field-AreResolved name value made v m.1,
)

pub put_number-IsBuilt :
    (name : String) (value : Option Number) (made : Members)
    → IsBuilt made
    → IsBuilt (put_number name value made)
unfolding non_null_types
put_number-IsBuilt name none made m = m
put_number-IsBuilt name (some found) made m =
    insert_field-IsBuilt name (number found) made (λ e. refl) tt m

pub put_items-IsBuilt :
    (clean : Value) (made : Members)
    → IsResolved clean
    → IsBuilt made
    → IsBuilt (put "items" (items_of clean) made)
unfolding non_null_types
put_items-IsBuilt (array no_elements) made c m = m
put_items-IsBuilt (array (element first rest)) made c m =
    insert_field-IsBuilt "items" first made (λ e. ground arith) c.0 m
put_items-IsBuilt (object fields) made c m =
    insert_field-IsBuilt "items" (object fields) made (λ e. refl) c m
put_items-IsBuilt null made c m = insert_field-IsBuilt "items" null made (λ e. refl) c m
put_items-IsBuilt (bool b) made c m = insert_field-IsBuilt "items" (bool b) made (λ e. refl) c m
put_items-IsBuilt (number n) made c m = insert_field-IsBuilt "items" (number n) made (λ e. refl) c m
put_items-IsBuilt (string s) made c m = insert_field-IsBuilt "items" (string s) made (λ e. refl) c m
