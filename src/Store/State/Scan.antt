-- ===== src/Store/State/Scan.antt =====
-- The pages of a scan.
use pluribus.Base.{ℕ, ◌≤◌, ◌<◌, ◌≡◌, none, List, [], ◌∷◌, length, string_eq, ◌⊎◌, some, ◌++◌}
use pluribus.Store.Tables.{pair_eq}
use pluribus.Store.State.{StateEntry, StatePage}

-- The entry is the last of the list.
abbrev pub IsLast : StateEntry → List StateEntry → Type 0
IsLast e xs = (before : List StateEntry) × (xs ≡ before ++ (e ∷ []))

-- Where the next page goes on, after the kept entries of all.
abbrev pub GoesOn : StatePage → List StateEntry → ℕ → Type 0
GoesOn page entries limit =
    ((0 < limit)
      × (limit < length entries)
      × ((e : StateEntry) × IsLast e page.entries × (page.next_key ≡ some e.key)))
    ⊎ (((limit ≡ 0) ⊎ (length entries ≤ limit)) × (page.next_key ≡ none))
