-- ===== src/Json.antt =====
-- `serde_json::Value`, as far as the gateway's configuration and schema code reads it. A float is
-- kept as its bit pattern; an object is a list of fields in insertion order.
use adk_gateway.Common.{ℕ, String, Option, none, some, Bool, if◌then◌else◌, str_eq}

-- `negsuc n` is -(n + 1).
pub data ℤ : Type 0 where
  pos : ℕ → ℤ
  negsuc : ℕ → ℤ

-- `PosInt(u64)`, `NegInt(i64)`, `Float(f64)` of the crate's `Number`.
pub data Number : Type 0 where
  int : ℤ → Number
  float : (bits : ℕ) → Number

mutual
  pub data Value : Type 0 where
    null : Value
    bool : Bool → Value
    number : Number → Value
    string : String → Value
    array : Elements → Value
    object : Members → Value

  pub data Elements : Type 0 where
    no_elements : Elements
    element : Value → Elements → Elements

  pub data Members : Type 0 where
    no_members : Members
    member : (name : String) → Value → Members → Members

-- `Value::get` at a text key: `None` on anything but an object.
abbrev pub get_field : String → Members → Option Value
get_field k no_members = none
get_field k (member j v fs) = if str_eq j k then some v else get_field k fs

abbrev pub get : String → Value → Option Value
get k (object fs) = get_field k fs
get k null = none
get k (bool b) = none
get k (number n) = none
get k (string s) = none
get k (array vs) = none

abbrev pub as_str : Value → Option String
as_str (string s) = some s
as_str null = none
as_str (bool b) = none
as_str (number n) = none
as_str (array vs) = none
as_str (object fs) = none
