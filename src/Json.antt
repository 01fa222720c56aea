-- ===== src/Json.antt =====
-- JSON values as the program uses them through serde_json: objects, arrays and scalars. An object
-- is its members in their order; a lookup finds the first member of the name. The text form is
-- outside the program, a parameter.
pub mod Equality
use pluribus.Base.{
  ℕ, ◌≤◌, String, Bool, true, false, Option, none, some, List, [], ◌∷◌, Result, ok, err, ◌==◌,
  string_eq, ℤ, pos, negsuc, if◌then◌else◌, leb, i64_max, u64_max,
}

mutual
  pub data Value : Type 0 where
    null : Value
    bool : Bool → Value
    number : ℤ → Value
    float : String → Value
    string : String → Value
    array : Values → Value
    object : Members → Value

  pub data Values : Type 0 where
    nil : Values
    cons : Value → Values → Values

  pub data Members : Type 0 where
    end : Members
    member : String → Value → Members → Members

-- `serde_json::from_slice`, `serde_json::to_vec`, `Value::pointer` and the text of a number.
pub record JsonText : Type 0 where
  pub from_slice : List ℕ → Result String Value
  pub to_vec : Value → List ℕ
  pub pointer : Value → String → Option Value
  pub number_text : Value → String

abbrev pub find_member : String → Members → Option Value
find_member key end = none
find_member key (member name value rest) = if name == key then some value else find_member key rest

-- `Value::get`
abbrev pub get : Value → String → Option Value
get (object members) key = find_member key members
get _ key = none

-- `value[key]`: `null` where there is no such member.
abbrev pub at : Value → String → Value
at value key = elim (get value key) [ none ↦ null | some found ↦ found ]

abbrev pub as_str : Value → Option String
as_str (string s) = some s
as_str _ = none

abbrev pub as_i64 : Value → Option ℤ
as_i64 (number (pos n)) = if leb n i64_max then some (pos n) else none
as_i64 (number (negsuc n)) = if leb n i64_max then some (negsuc n) else none
as_i64 _ = none

abbrev pub as_u64 : Value → Option ℕ
as_u64 (number (pos n)) = if leb n u64_max then some n else none
as_u64 _ = none

abbrev pub values_of : Values → List Value
values_of nil = []
values_of (cons value rest) = value ∷ values_of rest

abbrev pub members_of : Members → List (String × Value)
members_of end = []
members_of (member name value rest) = (name, value) ∷ members_of rest

abbrev pub as_array : Value → Option (List Value)
as_array (array values) = some (values_of values)
as_array _ = none

abbrev pub as_object : Value → Option (List (String × Value))
as_object (object members) = some (members_of members)
as_object _ = none

-- An object of given members, as `json!({ … })` makes it.
abbrev pub members : List (String × Value) → Members
members [] = end
members ((name, value) ∷ rest) = member name value (members rest)

abbrev pub obj : List (String × Value) → Value
obj fields = object (members fields)

abbrev pub opt_string : Option String → Value
opt_string none = null
opt_string (some s) = string s
