-- ===== src/Json/Equality.antt =====
-- Equality of JSON values.
use pluribus.Base.{
  ◌≡◌, ◌↔◌, String, Bool, true, false, ◌&&◌, arith, Eq, ◌==◌, string_eq, ==_iff, eqb_ℤ, eqb_ℤ_iff,
}
use pluribus.Json.{
  Value, null, bool, number, float, string, array, object, Values, nil, cons, Members, end, member,
}

abbrev pub bool_beq : Bool → Bool → Bool
bool_beq true b = b
bool_beq false true = false
bool_beq false false = true

pub bool_beq_iff : (a b : Bool) → (bool_beq a b ≡ true) ↔ (a ≡ b)
bool_beq_iff true true = ground arith
bool_beq_iff true false = ground arith
bool_beq_iff false true = ground arith
bool_beq_iff false false = ground arith

instance abbrev pub bool_eq : Eq Bool
bool_eq = record { beq = bool_beq; beq_iff = bool_beq_iff }

unfoldable mutual
  pub value_beq : Value → Value → Bool
  value_beq null null = true
  value_beq (bool a) (bool b) = bool_beq a b
  value_beq (number a) (number b) = eqb_ℤ a b
  value_beq (float a) (float b) = a == b
  value_beq (string a) (string b) = a == b
  value_beq (array a) (array b) = values_beq a b
  value_beq (object a) (object b) = members_beq a b
  value_beq _ _ = false

  pub values_beq : Values → Values → Bool
  values_beq nil nil = true
  values_beq (cons x xs) (cons y ys) = value_beq x y && values_beq xs ys
  values_beq _ _ = false

  pub members_beq : Members → Members → Bool
  members_beq end end = true
  members_beq (member n x xs) (member m y ys) = (n == m) && value_beq x y && members_beq xs ys
  members_beq _ _ = false

cons_iff :
    (x y : Value) (xs ys : Values) (p q : Bool)
    → (p ≡ true) ↔ (x ≡ y)
    → (q ≡ true) ↔ (xs ≡ ys)
    → ((p && q) ≡ true) ↔ (cons x xs ≡ cons y ys)
cons_iff x y xs ys p q = ground arith

member_iff :
    (n m : String) (x y : Value) (xs ys : Members) (o p q : Bool)
    → (o ≡ true) ↔ (n ≡ m)
    → (p ≡ true) ↔ (x ≡ y)
    → (q ≡ true) ↔ (xs ≡ ys)
    → ((o && p && q) ≡ true) ↔ (member n x xs ≡ member m y ys)
member_iff n m x y xs ys o p q = ground arith

mutual
  unfolding value_beq

  value_iff : (a b : Value) → (value_beq a b ≡ true) ↔ (a ≡ b)
  value_iff null null = ground arith
  value_iff null (bool y) = ground arith
  value_iff null (number y) = ground arith
  value_iff null (float y) = ground arith
  value_iff null (string y) = ground arith
  value_iff null (array y) = ground arith
  value_iff null (object y) = ground arith
  value_iff (bool x) null = ground arith
  value_iff (bool x) (bool y) = ground (arith, bool_beq_iff x y)
  value_iff (bool x) (number y) = ground arith
  value_iff (bool x) (float y) = ground arith
  value_iff (bool x) (string y) = ground arith
  value_iff (bool x) (array y) = ground arith
  value_iff (bool x) (object y) = ground arith
  value_iff (number x) null = ground arith
  value_iff (number x) (bool y) = ground arith
  value_iff (number x) (number y) = ground (arith, eqb_ℤ_iff x y)
  value_iff (number x) (float y) = ground arith
  value_iff (number x) (string y) = ground arith
  value_iff (number x) (array y) = ground arith
  value_iff (number x) (object y) = ground arith
  value_iff (float x) null = ground arith
  value_iff (float x) (bool y) = ground arith
  value_iff (float x) (number y) = ground arith
  value_iff (float x) (float y) = ground (arith, ==_iff x y)
  value_iff (float x) (string y) = ground arith
  value_iff (float x) (array y) = ground arith
  value_iff (float x) (object y) = ground arith
  value_iff (string x) null = ground arith
  value_iff (string x) (bool y) = ground arith
  value_iff (string x) (number y) = ground arith
  value_iff (string x) (float y) = ground arith
  value_iff (string x) (string y) = ground (arith, ==_iff x y)
  value_iff (string x) (array y) = ground arith
  value_iff (string x) (object y) = ground arith
  value_iff (array x) null = ground arith
  value_iff (array x) (bool y) = ground arith
  value_iff (array x) (number y) = ground arith
  value_iff (array x) (float y) = ground arith
  value_iff (array x) (string y) = ground arith
  value_iff (array x) (array y) = ground (arith, values_iff x y)
  value_iff (array x) (object y) = ground arith
  value_iff (object x) null = ground arith
  value_iff (object x) (bool y) = ground arith
  value_iff (object x) (number y) = ground arith
  value_iff (object x) (float y) = ground arith
  value_iff (object x) (string y) = ground arith
  value_iff (object x) (array y) = ground arith
  value_iff (object x) (object y) = ground (arith, members_iff x y)

  values_iff : (a b : Values) → (values_beq a b ≡ true) ↔ (a ≡ b)
  values_iff nil nil = ground arith
  values_iff nil (cons y ys) = ground arith
  values_iff (cons x xs) nil = ground arith
  values_iff (cons x xs) (cons y ys) =
      cons_iff x y xs ys (value_beq x y) (values_beq xs ys) (value_iff x y) (values_iff xs ys)

  members_iff : (a b : Members) → (members_beq a b ≡ true) ↔ (a ≡ b)
  members_iff end end = ground arith
  members_iff end (member m y ys) = ground arith
  members_iff (member n x xs) end = ground arith
  members_iff (member n x xs) (member m y ys) =
      member_iff n m x y xs ys (n == m) (value_beq x y) (members_beq xs ys) (==_iff n m)
        (value_iff x y) (members_iff xs ys)

pub value_beq_iff : (a b : Value) → (value_beq a b ≡ true) ↔ (a ≡ b)
value_beq_iff a b = value_iff a b

instance abbrev pub value_eq : Eq Value
value_eq = record { beq = value_beq; beq_iff = value_beq_iff }
