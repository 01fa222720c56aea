-- ===== src/Store/State/Sorting.antt =====
-- The order of the entries of a scan.
use pluribus.Base.{
  ◌≡◌, true, List, [], ◌∷◌, arith, All, text_le, text_le_total, text_le_trans, Bool-cases,
  string_eq, ◌≢◌, sym, inl, inr,
}
use pluribus.Store.Tables.{pair_eq}
use pluribus.Store.State.{StateEntry, sort_entries, entry_insert}

-- The keys ascend, and no two are the same.
abbrev pub Rises : List StateEntry → Type 0
Rises [] = Unit {0}
Rises (x ∷ xs) = All (λ y. (text_le x.key y.key ≡ true) × (x.key ≢ y.key)) xs × Rises xs

abbrev pub IsAscending : List StateEntry → Type 0
IsAscending [] = Unit {0}
IsAscending (x ∷ xs) = All (λ y. text_le x.key y.key ≡ true) xs × IsAscending xs

above_trans :
    (a x : StateEntry) (xs : List StateEntry)
    → text_le a.key x.key ≡ true
    → All (λ y. text_le x.key y.key ≡ true) xs
    → All (λ y. text_le a.key y.key ≡ true) xs
above_trans a x [] h k = tt
above_trans a x (y ∷ xs) h k = (text_le_trans a.key x.key y.key h k.0, above_trans a x xs h k.1)

All-entry_insert :
    (P : StateEntry → Type 0) (a : StateEntry) (xs : List StateEntry)
    → P a
    → All P xs
    → All P (entry_insert a xs)
unfolding entry_insert
All-entry_insert P a [] h k = (h, tt)
All-entry_insert P a (x ∷ xs) h k = elim (Bool-cases (text_le a.key x.key)) [
  | inl e ↦ rw e (h, k)
  | inr e ↦ rw e (k.0, All-entry_insert P a xs h k.1)
]

entry_insert-IsAscending :
    (a : StateEntry) (xs : List StateEntry) → IsAscending xs → IsAscending (entry_insert a xs)
unfolding entry_insert
entry_insert-IsAscending a [] s = (tt, tt)
entry_insert-IsAscending a (x ∷ xs) s = elim (Bool-cases (text_le a.key x.key)) [
  | inl e ↦ rw e ((e, above_trans a x xs e s.0), s)
  | inr e ↦ rw e (
    All-entry_insert (λ y. text_le x.key y.key ≡ true) a xs
        (ground (arith, text_le_total a.key x.key)) s.0,
    entry_insert-IsAscending a xs s.1,
  )
]

pub sort_entries-IsAscending : (xs : List StateEntry) → IsAscending (sort_entries xs)
unfolding sort_entries
sort_entries-IsAscending [] = tt
sort_entries-IsAscending (x ∷ xs) =
    entry_insert-IsAscending x (sort_entries xs) (sort_entries-IsAscending xs)

abbrev pub IsDistinct : List StateEntry → Type 0
IsDistinct [] = Unit {0}
IsDistinct (x ∷ xs) = All (λ y. x.key ≢ y.key) xs × IsDistinct xs

entry_insert-IsDistinct :
    (a : StateEntry) (xs : List StateEntry)
    → All (λ y. a.key ≢ y.key) xs
    → IsDistinct xs
    → IsDistinct (entry_insert a xs)
unfolding entry_insert
entry_insert-IsDistinct a [] h d = (tt, tt)
entry_insert-IsDistinct a (x ∷ xs) h d = elim (Bool-cases (text_le a.key x.key)) [
  | inl e ↦ rw e (h, d)
  | inr e ↦ rw e (
    All-entry_insert (λ y. x.key ≢ y.key) a xs (λ same. h.0 (sym same)) d.0,
    entry_insert-IsDistinct a xs h.1 d.1,
  )
]

All-sort_entries :
    (P : StateEntry → Type 0) (xs : List StateEntry) → All P xs → All P (sort_entries xs)
unfolding sort_entries
All-sort_entries P [] h = tt
All-sort_entries P (x ∷ xs) h =
    All-entry_insert P x (sort_entries xs) h.0 (All-sort_entries P xs h.1)

pub sort_entries-IsDistinct : (xs : List StateEntry) → IsDistinct xs → IsDistinct (sort_entries xs)
unfolding sort_entries
sort_entries-IsDistinct [] d = tt
sort_entries-IsDistinct (x ∷ xs) d =
    entry_insert-IsDistinct x (sort_entries xs) (All-sort_entries (λ y. x.key ≢ y.key) xs d.0)
      (sort_entries-IsDistinct xs d.1)

both_All :
    (P Q : StateEntry → Type 0) (xs : List StateEntry)
    → All P xs
    → All Q xs
    → All (λ y. P y × Q y) xs
both_All P Q [] h k = tt
both_All P Q (x ∷ xs) h k = ((h.0, k.0), both_All P Q xs h.1 k.1)

pub rises : (xs : List StateEntry) → IsAscending xs → IsDistinct xs → Rises xs
rises [] a d = tt
rises (x ∷ xs) a d =
    (both_All (λ y. text_le x.key y.key ≡ true) (λ y. x.key ≢ y.key) xs a.0 d.0, rises xs a.1 d.1)
