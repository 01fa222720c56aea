-- ===== src/Base/Maps.antt =====
-- Maps (`BTreeMap`, `HashMap`, tables with a primary key) as association lists.
use mathlib.Core.Path.{◌≡◌, subst₂}
use mathlib.Core.Logic.{inl, inr}
use mathlib.Core.Option.{Option, none, some}
use mathlib.Core.List.{List, [], ◌∷◌}
use native.Mathlib.Omega.{arith}
use pluribus.Base.Tests.{if◌then◌else◌, Bool-cases}
use pluribus.Base.Equality.{Eq, ◌==◌}

abbrev pub Assoc {ℓ} : Type ℓ → Type ℓ → Type ℓ
Assoc K V = List (K × V)

module _ {ℓ} {K V : Type ℓ} ⦃e : Eq K⦄ where
  unfoldable pub lookup : K → Assoc K V → Option V
  lookup key [] = none
  lookup key ((own, value) ∷ rest) = if own == key then some value else lookup key rest

  -- A key that is present keeps its place, and its value is replaced.
  unfoldable pub insert : K → V → Assoc K V → Assoc K V
  insert key value [] = (key, value) ∷ []
  insert key value ((own, old) ∷ rest) =
      if own == key then (key, value) ∷ rest else (own, old) ∷ insert key value rest

  unfoldable pub remove : K → Assoc K V → Assoc K V
  remove k [] = []
  remove k ((j, w) ∷ m) = let rest = remove k m in if j == k then rest else (j, w) ∷ rest

  pub lookup-insert :
      (k j : K) (v : V) (m : Assoc K V)
      → lookup j (insert k v m) ≡ (if k == j then some v else lookup j m)
  unfolding lookup insert
  lookup-insert k j v [] = ground arith
  lookup-insert k j v ((i, w) ∷ m) =
      ground (arith, e.beq_iff k j, e.beq_iff i k, e.beq_iff i j, lookup-insert k j v m)

  pub lookup-remove :
      (k j : K) (m : Assoc K V) → lookup j (remove k m) ≡ (if k == j then none else lookup j m)
  unfolding lookup remove
  lookup-remove k j [] = ground arith
  lookup-remove k j ((i, w) ∷ m) =
      ground (arith, e.beq_iff k j, e.beq_iff i k, e.beq_iff i j, lookup-remove k j m)

  -- To write what is there already changes nothing.
  pub insert_self : (k : K) (v : V) (m : Assoc K V) → lookup k m ≡ some v → insert k v m ≡ m
  unfolding lookup insert
  insert_self k v [] h = cc
  insert_self k v ((j, w) ∷ m) h = ground (arith, e.beq_iff j k, insert_self k v m)

  pub insert-insert : (k : K) (v w : V) (m : Assoc K V) → insert k v (insert k w m) ≡ insert k v m
  unfolding insert
  insert-insert k v w [] = ground (arith, e.beq_iff k k)
  insert-insert k v w ((j, u) ∷ m) =
      ground (arith, e.beq_iff j k, e.beq_iff k k, insert-insert k v w m)

-- Every entry of the map satisfies `P`.
abbrev pub Everywhere : {K V : Type 0} ⦃e : Eq K⦄ → (K → V → Type 0) → Assoc K V → Type 0
Everywhere {K} {V} P m = (k : K) (v : V) → lookup k m ≡ some v → P k v

module _ {K V : Type 0} ⦃e : Eq K⦄ (P : K → V → Type 0) where
  pub Everywhere-insert :
      (k : K) (v : V) (m : Assoc K V) → P k v → Everywhere P m → Everywhere P (insert k v m)
  Everywhere-insert k v m new old j w h = elim (Bool-cases (k == j)) [
    | inl same ↦ subst₂ P ((e.beq_iff k j).0 same) (ground (arith, lookup-insert k j v m)) new
    | inr other ↦ old j w (ground (arith, lookup-insert k j v m))
  ]

  pub Everywhere-remove : (k : K) (m : Assoc K V) → Everywhere P m → Everywhere P (remove k m)
  Everywhere-remove k m old j w h = old j w (ground (arith, lookup-remove k j m))
