-- ===== src/Base/Decimal.antt =====
-- The decimal text of a number (`to_string`, `{}` in a format), as its ASCII codes.
use Prim.Native.Nat.{ℕ, zero, suc, ◌+◌, ◌-◌, ◌*◌, ◌/◌, ◌%◌, ◌^◌, ◌<◌}
use mathlib.Core.Path.{◌≡◌, refl, sym, ap, ◌∙◌}
use mathlib.Core.Bool.{true, ◌&&◌}
use mathlib.Core.Option.{Option, none, some}
use mathlib.Core.Logic.{◌≢◌, inl, inr}
use mathlib.Core.List.{List, [], ◌∷◌}
use native.Mathlib.Omega.{arith}
use pluribus.Base.Lists.{all}
use pluribus.Base.Text.{is_ascii_digit}
use pluribus.Base.Tests.{ltb, eqb, if◌then◌else◌, Bool-cases}

-- One digit for each round, at most as many rounds as the fuel.
digits : ℕ → ℕ → List ℕ → List ℕ
digits zero n acc = acc
digits (suc fuel) n acc =
    let rest = digits fuel (n / 10) ((48 + n % 10) ∷ acc) in
    if ltb n 10 then (48 + n) ∷ acc else rest

unfoldable pub decimal : ℕ → List ℕ
unfolding digits
decimal n = digits (suc n) n []

value : ℕ → List ℕ → ℕ
value acc [] = acc
value acc (c ∷ cs) = value (acc * 10 + (c - 48)) cs

-- The fuel is enough: reading the digits gives the number back.
value-digits : (fuel n : ℕ) (acc : List ℕ) → n < fuel → value 0 (digits fuel n acc) ≡ value n acc
unfolding value digits
value-digits zero n acc h = absurd (omega arith)
value-digits (suc fuel) n acc h = elim (Bool-cases (ltb n 10)) [
  | inl small ↦ rw small (ap (λ k. value k acc) {x = 0 * 10 + (48 + n - 48)} {y = n} (omega arith))
  | inr large ↦ rw large (
      value-digits fuel (n / 10) ((48 + n % 10) ∷ acc) (ground arith)
      ∙ ap (λ k. value k acc) {x = n / 10 * 10 + (48 + n % 10 - 48)} {y = n} (omega arith))
]

pub decimal_injective : (m n : ℕ) → decimal m ≡ decimal n → m ≡ n
unfolding decimal value
decimal_injective m n h =
    sym (value-digits (suc m) m [] (omega arith))
    ∙ ap (value 0) h
    ∙ value-digits (suc n) n [] (omega arith)

parse_digits : List ℕ → Option ℕ
parse_digits [] = none
parse_digits (c ∷ cs) =
    let n = value 0 (c ∷ cs) in
    if all is_ascii_digit (c ∷ cs) && ltb n (2 ^ 64) then some n else none

-- `str::parse::<u64>`: decimal digits, one plus sign before them at most, and no overflow.
unfoldable pub parse_u64 : List ℕ → Option ℕ
unfolding parse_digits value
parse_u64 [] = none
parse_u64 (c ∷ cs) =
    let signed = parse_digits cs in if eqb c b'+' then signed else parse_digits (c ∷ cs)

all-digits :
    (fuel n : ℕ) (acc : List ℕ)
    → all is_ascii_digit acc ≡ true
    → all is_ascii_digit (digits fuel n acc) ≡ true
unfolding digits
all-digits zero n acc h = h
all-digits (suc fuel) n acc h = elim (Bool-cases (ltb n 10)) [
  | inl small ↦ rw small (ground arith)
  | inr large ↦ rw large (all-digits fuel (n / 10) ((48 + n % 10) ∷ acc) (ground arith))
]

parse_digits_lem :
    (n : ℕ) (cs : List ℕ)
    → n < 2 ^ 64
    → value 0 cs ≡ n
    → all is_ascii_digit cs ≡ true
    → cs ≢ []
    → parse_u64 cs ≡ some n
unfolding parse_u64
parse_digits_lem n [] h v d e = absurd (e refl)
parse_digits_lem n (c ∷ cs) h v d e = ground arith

digits-ne-nil : (fuel n c : ℕ) (acc : List ℕ) → digits fuel n (c ∷ acc) ≢ []
unfolding digits
digits-ne-nil zero n c acc h = cc
digits-ne-nil (suc fuel) n c acc h =
    ground (arith, digits-ne-nil fuel (n / 10) (48 + n % 10) (c ∷ acc))

decimal-ne-nil : (n : ℕ) → decimal n ≢ []
unfolding decimal digits
decimal-ne-nil n h = ground (arith, digits-ne-nil n (n / 10) (48 + n % 10) [])

-- What is printed parses to the number that was printed.
pub parse_u64-decimal : (n : ℕ) → n < 2 ^ 64 → parse_u64 (decimal n) ≡ some n
parse_u64-decimal n h =
    parse_digits_lem n (decimal n) h
      (unfold decimal value in value-digits (suc n) n [] (omega arith))
      (unfold decimal in all-digits (suc n) n [] refl) (decimal-ne-nil n)
