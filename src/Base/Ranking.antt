-- ===== src/Base/Ranking.antt =====
-- `ORDER BY` on a numeric column: a stable sort by a number of each element.
use Prim.Native.Nat.{ℕ, ◌<◌}
use mathlib.Core.Path.{◌≡◌, refl, ap, ◌∙◌}
use mathlib.Core.List.{List, [], ◌∷◌}
use native.Mathlib.Omega.{arith}
use pluribus.Base.Tests.{leb, if◌then◌else◌}
use pluribus.Base.Lists.{All}

module _ {ℓ} {A : Type ℓ} (rank : A → ℕ) where
  rank_insert : A → List A → List A
  rank_insert a [] = a ∷ []
  rank_insert a (x ∷ xs) =
      let rest = rank_insert a xs in if leb (rank a) (rank x) then a ∷ x ∷ xs else x ∷ rest

  unfoldable pub sort_on : List A → List A
  unfolding rank_insert
  sort_on [] = []
  sort_on (x ∷ xs) = rank_insert x (sort_on xs)

  -- The ranks rise strictly along the list.
  abbrev pub IsRising : List A → Type ℓ
  IsRising [] = Unit
  IsRising (x ∷ xs) = All (λ y. rank x < rank y) xs × IsRising xs

  rank_insert_first :
      (a : A) (xs : List A) → All (λ y. rank a < rank y) xs → rank_insert a xs ≡ a ∷ xs
  unfolding rank_insert
  rank_insert_first a [] h = refl
  rank_insert_first a (x ∷ xs) h = ground (arith, h.0)

  -- A list that rises is sorted already.
  pub sort_on-rising : (xs : List A) → IsRising xs → sort_on xs ≡ xs
  unfolding sort_on
  sort_on-rising [] h = refl
  sort_on-rising (x ∷ xs) h =
      ap (rank_insert x) (sort_on-rising xs h.1) ∙ rank_insert_first x xs h.0
