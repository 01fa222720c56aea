-- ===== src/Base/Order.antt =====
-- Total orders as an interface (`Ord` of the source), `sort_unstable`, `dedup` and the fact that
-- the two find repetitions.
use Prim.Native.Nat.{suc, ◌≤◌}
use mathlib.Core.Path.{◌≡◌, refl}
use mathlib.Core.Logic.{◌↔◌, ◌⊎◌, inl, inr}
use mathlib.Core.Bool.{Bool, true}
use mathlib.Core.List.{List, [], ◌∷◌}
use native.Mathlib.Omega.{arith}
use pluribus.Base.Tests.{if◌then◌else◌, Bool-cases}
use pluribus.Base.Equality.{Eq, ◌==◌, ne_of_==}
use pluribus.Base.Lists.{length, All, Among}

pub record Ord (A : Type 0) : Type 0 where
  pub le : A → A → Bool
  pub le_total : (a b : A) → (le a b ≡ true) ⊎ (le b a ≡ true)
  pub le_trans : (a b c : A) → le a b ≡ true → le b c ≡ true → le a c ≡ true
  pub le_antisymm : (a b : A) → le a b ≡ true → le b a ≡ true → a ≡ b

-- No element stands twice.
abbrev pub Distinct : {A : Type 0} → List A → Type 0
Distinct [] = Unit {0}
Distinct (x ∷ xs) = (¬ Among x xs) × Distinct xs

module _ {A : Type 0} ⦃o : Ord A⦄ where
  sort_insert : A → List A → List A
  sort_insert a [] = a ∷ []
  sort_insert a (x ∷ xs) = let rest = sort_insert a xs in if o.le a x then a ∷ x ∷ xs else x ∷ rest

  unfoldable pub sort : List A → List A
  unfolding sort_insert
  sort [] = []
  sort (x ∷ xs) = sort_insert x (sort xs)

  abbrev IsSorted : List A → Type 0
  IsSorted [] = Unit {0}
  IsSorted (x ∷ xs) = All (λ y. o.le x y ≡ true) xs × IsSorted xs

  All-le_trans :
      (a x : A) (xs : List A)
      → o.le a x ≡ true
      → All (λ y. o.le x y ≡ true) xs
      → All (λ y. o.le a y ≡ true) xs
  All-le_trans a x [] h k = tt
  All-le_trans a x (y ∷ xs) h k = (o.le_trans a x y h k.0, All-le_trans a x xs h k.1)

  All-sort_insert :
      (P : A → Type 0) (a : A) (xs : List A) → P a → All P xs → All P (sort_insert a xs)
  unfolding sort_insert
  All-sort_insert P a [] h k = (h, tt)
  All-sort_insert P a (x ∷ xs) h k = elim (Bool-cases (o.le a x)) [
    | inl e ↦ rw e (h, k)
    | inr e ↦ rw e (k.0, All-sort_insert P a xs h k.1)
  ]

  sort_insert-IsSorted : (a : A) (xs : List A) → IsSorted xs → IsSorted (sort_insert a xs)
  unfolding sort_insert
  sort_insert-IsSorted a [] s = (tt, tt)
  sort_insert-IsSorted a (x ∷ xs) s = elim (Bool-cases (o.le a x)) [
    | inl e ↦ rw e ((e, All-le_trans a x xs e s.0), s)
    | inr e ↦ rw e (
      All-sort_insert (λ y. o.le x y ≡ true) a xs (ground (arith, o.le_total a x)) s.0,
      sort_insert-IsSorted a xs s.1,
    )
  ]

  pub sort-IsSorted : (xs : List A) → IsSorted (sort xs)
  unfolding sort
  sort-IsSorted [] = tt
  sort-IsSorted (x ∷ xs) = sort_insert-IsSorted x (sort xs) (sort-IsSorted xs)

  Among-sort_insert : (b a : A) (xs : List A) → Among b (sort_insert a xs) ↔ ((a ≡ b) ⊎ Among b xs)
  unfolding sort_insert
  Among-sort_insert b a [] = ground arith
  Among-sort_insert b a (x ∷ xs) = ground (arith, Among-sort_insert b a xs)

  pub Among-sort : (b : A) (xs : List A) → Among b (sort xs) ↔ Among b xs
  unfolding sort
  Among-sort b [] = ground arith
  Among-sort b (x ∷ xs) = ground (arith, Among-sort_insert b x (sort xs), Among-sort b xs)

  length-sort_insert : (a : A) (xs : List A) → length (sort_insert a xs) ≡ suc (length xs)
  unfolding sort_insert
  length-sort_insert a [] = refl
  length-sort_insert a (x ∷ xs) = ground (arith, length-sort_insert a xs)

  pub length-sort : (xs : List A) → length (sort xs) ≡ length xs
  unfolding sort
  length-sort [] = refl
  length-sort (x ∷ xs) = ground (arith, length-sort_insert x (sort xs), length-sort xs)

  Distinct-sort_insert :
      (a : A) (xs : List A) → Distinct (sort_insert a xs) ↔ ((¬ Among a xs) × Distinct xs)
  unfolding sort_insert
  Distinct-sort_insert a [] = ground arith
  Distinct-sort_insert a (x ∷ xs) = elim (Bool-cases (o.le a x)) [
    | inl e ↦ rw e (ground arith)
    | inr e ↦ rw e (ground (arith, Distinct-sort_insert a xs, Among-sort_insert x a xs))
  ]

  pub Distinct-sort : (xs : List A) → Distinct (sort xs) ↔ Distinct xs
  unfolding sort
  Distinct-sort [] = ground arith
  Distinct-sort (x ∷ xs) =
      ground (arith, Distinct-sort_insert x (sort xs), Distinct-sort xs, Among-sort x xs)

-- `Vec::dedup`: of equal neighbours the first stays.
dedup_after : {A : Type 0} ⦃e : Eq A⦄ → A → List A → List A
dedup_after x [] = []
dedup_after x (y ∷ ys) =
    let kept = dedup_after y ys in if y == x then dedup_after x ys else y ∷ kept

unfoldable pub dedup : {A : Type 0} ⦃e : Eq A⦄ → List A → List A
unfolding dedup_after
dedup [] = []
dedup (x ∷ xs) = x ∷ dedup_after x xs

module _ {A : Type 0} ⦃o : Ord A⦄ ⦃e : Eq A⦄ where
  length-dedup_after : (x : A) (ys : List A) → length (dedup_after x ys) ≤ length ys
  unfolding dedup_after
  length-dedup_after x [] = omega arith
  length-dedup_after x (y ∷ ys) = ground (arith, length-dedup_after x ys, length-dedup_after y ys)

  -- In a sorted list that starts below `y`, an element before `y` is not repeated.
  before-not-Among :
      (x y : A) (ys : List A)
      → o.le x y ≡ true
      → ¬ (y ≡ x)
      → All (λ z. o.le y z ≡ true) ys
      → ¬ Among x ys
  before-not-Among x y [] h n s m = m
  before-not-Among x y (z ∷ ys) h n s (inl p) = n (o.le_antisymm y x (rw p at s.0) h)
  before-not-Among x y (z ∷ ys) h n s (inr m) = before-not-Among x y ys h n s.1 m

  dedup_after_iff :
      (x : A) (ys : List A)
      → All (λ z. o.le x z ≡ true) ys
      → IsSorted ys
      → (length (dedup_after x ys) ≡ length ys) ↔ ((¬ Among x ys) × Distinct ys)
  unfolding dedup_after
  dedup_after_iff x [] h s = ground arith
  dedup_after_iff x (y ∷ ys) h s = elim (Bool-cases (y == x)) [
    | inl p ↦ rw p (ground (arith, e.beq_iff y x, length-dedup_after x ys))
    | inr n ↦ rw n (
        ground (
          arith,
          e.beq_iff y x,
          dedup_after_iff y ys s.0 s.1,
          before-not-Among x y ys h.0 (ne_of_== n) s.0,
        ))
  ]

  dedup_iff : (xs : List A) → IsSorted xs → (length (dedup xs) ≡ length xs) ↔ Distinct xs
  unfolding dedup
  dedup_iff [] s = ground arith
  dedup_iff (x ∷ xs) s = ground (arith, dedup_after_iff x xs s.0 s.1)

  -- Sorting and dropping equal neighbours keeps the length exactly when nothing is repeated.
  pub length-dedup-sort_iff : (xs : List A) → (length (dedup (sort xs)) ≡ length xs) ↔ Distinct xs
  length-dedup-sort_iff xs =
      ground (arith, dedup_iff (sort xs) (sort-IsSorted xs), length-sort xs, Distinct-sort xs)
