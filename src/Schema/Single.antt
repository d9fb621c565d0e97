-- ===== src/Schema/Single.antt =====
-- What a schema looks like whose objects have single types, with no word of how schema_sanitizer.rs
-- finds them.
use adk_gateway.Common.{String, none, some, str_eq, ◌≡◌, inl, inr, arith, Bool-cases, eq_iff}
use adk_gateway.Json.{
  Value, null, bool, number, string, array, object, Elements, no_elements, element, Members,
  no_members, member, get_field,
}
use adk_gateway.Schema.{non_null_types, resolved_type, first_type}
use adk_gateway.Schema.Types.{IsResolved, HoldsResolved, AreResolved}

-- A text that is one of the elements.
pub data Lists (text : String) : Elements → Type 0 where
  first : {rest : Elements} → Lists text (element (string text) rest)
  later : {value : Value} {rest : Elements} → Lists text rest → Lists text (element value rest)

-- At no depth is the `type` of an object an array with a text in it other than "null".
abbrev mutual
  pub IsSingle : Value → Type 0
  IsSingle (object fields) =
      ((types : Elements) (text : String)
        → get_field "type" fields ≡ some (array types)
        → Lists text types
        → text ≡ "null")
      × AreSingle fields
  IsSingle (array values) = HoldsSingle values
  IsSingle null = Unit
  IsSingle (bool b) = Unit
  IsSingle (number n) = Unit
  IsSingle (string s) = Unit

  pub HoldsSingle : Elements → Type 0
  HoldsSingle no_elements = Unit
  HoldsSingle (element value rest) = IsSingle value × HoldsSingle rest

  pub AreSingle : Members → Type 0
  AreSingle no_members = Unit
  AreSingle (member name value rest) = IsSingle value × AreSingle rest

Lists-non_null_types :
    {text : String} {types : Elements}
    → Lists text types
    → first_type (non_null_types types) ≡ none
    → text ≡ "null"
unfolding non_null_types
Lists-non_null_types {text} (first {rest}) h = elim (Bool-cases (str_eq text "null")) [
  | inl e ↦ (eq_iff text "null").0 e
  | inr e ↦ absurd (ground (arith, h))
]
Lists-non_null_types (later {value = string s} l) h = elim (Bool-cases (str_eq s "null")) [
  | inl e ↦ Lists-non_null_types l (rw e at h)
  | inr e ↦ absurd (ground (arith, h))
]
Lists-non_null_types (later {value = null} l) h = Lists-non_null_types l h
Lists-non_null_types (later {value = bool b} l) h = Lists-non_null_types l h
Lists-non_null_types (later {value = number n} l) h = Lists-non_null_types l h
Lists-non_null_types (later {value = array vs} l) h = Lists-non_null_types l h
Lists-non_null_types (later {value = object fs} l) h = Lists-non_null_types l h

resolved_type-Lists :
    (fields : Members) (types : Elements) (text : String)
    → resolved_type fields ≡ none
    → get_field "type" fields ≡ some (array types)
    → Lists text types
    → text ≡ "null"
unfolding resolved_type
resolved_type-Lists fields types text h e l = Lists-non_null_types l (rw e at h)

mutual
  pub IsResolved-IsSingle : (value : Value) → IsResolved value → IsSingle value
  IsResolved-IsSingle (object fields) h = (
    λ types text e l. resolved_type-Lists fields types text h.0 e l,
    AreResolved-AreSingle fields h.1,
  )
  IsResolved-IsSingle (array values) h = HoldsResolved-HoldsSingle values h
  IsResolved-IsSingle null h = tt
  IsResolved-IsSingle (bool b) h = tt
  IsResolved-IsSingle (number n) h = tt
  IsResolved-IsSingle (string s) h = tt

  HoldsResolved-HoldsSingle : (values : Elements) → HoldsResolved values → HoldsSingle values
  HoldsResolved-HoldsSingle no_elements h = tt
  HoldsResolved-HoldsSingle (element value rest) h =
      (IsResolved-IsSingle value h.0, HoldsResolved-HoldsSingle rest h.1)

  AreResolved-AreSingle : (fields : Members) → AreResolved fields → AreSingle fields
  AreResolved-AreSingle no_members h = tt
  AreResolved-AreSingle (member name value rest) h =
      (IsResolved-IsSingle value h.0, AreResolved-AreSingle rest h.1)
