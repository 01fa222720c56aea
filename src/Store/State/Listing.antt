-- ===== src/Store/State/Listing.antt =====
-- Which entries the statement of a scan selects.
use pluribus.Base.{
  ℕ, ◌≡◌, ◌≢◌, refl, sym, ap, ◌∙◌, ◌↔◌, ◌⊎◌, inl, inr, String, Bool, true, ◌&&◌, Option, none, some,
  List, [], ◌∷◌, ◌++◌, arith, eqb, any, Among, Holds, Assoc, lookup, insert, remove, lookup-insert,
  lookup-remove, codes, strip_prefix, text_le, text_le_total, text_le_antisymm, Bool-cases,
  Option-cases, string_eq, ◌==◌, ==_iff,
}
use pluribus.Core.Delivery.{StateMutation, set, delete}
use pluribus.Store.Tables.{PairKey, pair_eq, pair_beq_iff}
use pluribus.Store.State.{
  StateEntry, slot, has_prefix, is_after, entries_of, sort_entries, entry_insert, apply_mutations,
  apply_mutation,
}

-- A table has one row for each primary key.
abbrev pub IsKeyed : Assoc PairKey (List ℕ) → Type 0
IsKeyed [] = Unit {0}
IsKeyed ((key, value) ∷ rows) = (lookup key rows ≡ none) × IsKeyed rows

-- The key begins with the prefix, which holds no U+0000.
abbrev pub StartsWith : String → String → Type 0
StartsWith prefix key =
    ((rest : List ℕ) × (codes key ≡ codes prefix ++ rest)) × (¬ Among 0 (codes prefix))

-- The key is above the one given, if one is.
abbrev pub IsPast : Option String → String → Type 0
IsPast after key = Holds (λ k. (text_le k key ≡ true) × (k ≢ key)) after

strip_prefix-some : (p s rest : List ℕ) → strip_prefix p s ≡ some rest → s ≡ p ++ rest
unfolding strip_prefix
strip_prefix-some [] s rest h = ground arith
strip_prefix-some (c ∷ p) [] rest h = absurd (ground arith)
strip_prefix-some (c ∷ p) (d ∷ s) rest h = ground (arith, strip_prefix-some p s rest)

strip_prefix-append : (p rest : List ℕ) → strip_prefix p (p ++ rest) ≡ some rest
unfolding strip_prefix
strip_prefix-append [] rest = refl
strip_prefix-append (c ∷ p) rest = ground (arith, strip_prefix-append p rest)

zero-Among : (cs : List ℕ) → (any (λ c. eqb c 0) cs ≡ true) ↔ Among 0 cs
zero-Among [] = ground arith
zero-Among (c ∷ cs) = ground (arith, zero-Among cs)

has_prefix_iff : (prefix key : String) → (has_prefix prefix key ≡ true) ↔ StartsWith prefix key
unfolding has_prefix
has_prefix_iff prefix key =
    let zero = zero-Among (codes prefix) in
    elim (Option-cases (strip_prefix (codes prefix) (codes key))) [
      | inl e ↦
          rw (e, has_prefix)
            (
              (λ h. absurd (ground arith)),
              λ h. absurd (
                  let found =
                    ap (strip_prefix (codes prefix)) h.0.1
                    ∙ strip_prefix-append (codes prefix) h.0.0 in
                  ground arith),
            )
      | inr (rest, e) ↦
          rw (e, has_prefix)
            (
              (λ h. (
                (rest, strip_prefix-some (codes prefix) (codes key) rest e),
                λ z. absurd (ground (arith, zero)),
              )),
              λ h. ground (arith, zero, h.1),
            )
    ]

is_after_iff :
    (after : Option String) (key : String) → (is_after after key ≡ true) ↔ IsPast after key
unfolding is_after
is_after_iff none key = ground arith
is_after_iff (some k) key = (
  (λ h. (
    (ground (arith, text_le_total k key)),
    λ same. let one = ap (λ x. text_le key x) same in ground (arith, text_le_total key key),
  )),
  λ h. ground (arith, text_le_antisymm k key),
)

-- What a scan lists: what `get` would find, under a key with the prefix that is past the given one.
abbrev pub IsListed : String → String → Option String → Assoc PairKey (List ℕ) → StateEntry → Type 0
IsListed namespace prefix after rows e =
    (lookup (slot namespace e.key) rows ≡ some e.value)
    × StartsWith prefix e.key
    × IsPast after e.key

module _ (namespace prefix : String) (after : Option String) where
  abbrev chosen : StateEntry → Bool
  chosen e = has_prefix prefix e.key && is_after after e.key

  -- The same, by the tests of the statement.
  entries_of_lem :
      (rows : Assoc PairKey (List ℕ)) (e : StateEntry)
      → IsKeyed rows
      → Among e (entries_of namespace prefix after rows)
        ↔ ((lookup (slot namespace e.key) rows ≡ some e.value) × (chosen e ≡ true))
  unfolding entries_of lookup
  entries_of_lem [] e keyed = ground arith
  entries_of_lem ((key, value) ∷ rows) e keyed = ground (
    arith,
    entries_of_lem rows e keyed.1,
    pair_beq_iff key (slot namespace e.key),
    ==_iff key.first namespace,
  )

  pub entries_of-IsListed :
      (rows : Assoc PairKey (List ℕ)) (e : StateEntry)
      → IsKeyed rows
      → Among e (entries_of namespace prefix after rows) ↔ IsListed namespace prefix after rows e
  entries_of-IsListed rows e keyed =
      ground
        (arith, entries_of_lem rows e keyed, has_prefix_iff prefix e.key, is_after_iff after e.key)

Among-entry_insert :
    (a e : StateEntry) (xs : List StateEntry) → Among e (entry_insert a xs) ↔ ((a ≡ e) ⊎ Among e xs)
unfolding entry_insert
Among-entry_insert a e [] = ground arith
Among-entry_insert a e (x ∷ xs) = ground (arith, Among-entry_insert a e xs)

pub Among-sort_entries :
    (e : StateEntry) (xs : List StateEntry) → Among e (sort_entries xs) ↔ Among e xs
unfolding sort_entries
Among-sort_entries e [] = ground arith
Among-sort_entries e (x ∷ xs) =
    ground (arith, Among-entry_insert x e (sort_entries xs), Among-sort_entries e xs)

-- To set and to delete an entry keep one row for each key.
insert-IsKeyed :
    (key : PairKey) (value : List ℕ) (rows : Assoc PairKey (List ℕ))
    → IsKeyed rows
    → IsKeyed (insert key value rows)
unfolding insert lookup
insert-IsKeyed key value [] keyed = (refl, tt)
insert-IsKeyed key value ((own, old) ∷ rows) keyed = elim (Bool-cases (own == key)) [
  | inl same ↦
      let p = (pair_beq_iff own key).0 same in
      rw same (ap (λ k. lookup k rows) (sym p) ∙ keyed.0, keyed.1)
  | inr other ↦ rw other (
    lookup-insert key own value rows
        ∙ ground (arith, keyed.0, pair_beq_iff own key, pair_beq_iff key own),
    insert-IsKeyed key value rows keyed.1,
  )
]

remove-IsKeyed :
    (key : PairKey) (rows : Assoc PairKey (List ℕ)) → IsKeyed rows → IsKeyed (remove key rows)
unfolding remove lookup
remove-IsKeyed key [] keyed = tt
remove-IsKeyed key ((own, old) ∷ rows) keyed = elim (Bool-cases (own == key)) [
  | inl same ↦ rw same (remove-IsKeyed key rows keyed.1)
  | inr other ↦
      rw other
        (lookup-remove key own rows ∙ ground (arith, keyed.0), remove-IsKeyed key rows keyed.1)
]

pub apply_mutations-IsKeyed :
    (namespace : String) (mutations : List StateMutation) (rows : Assoc PairKey (List ℕ))
    → IsKeyed rows
    → IsKeyed (apply_mutations namespace mutations rows)
unfolding apply_mutations apply_mutation
apply_mutations-IsKeyed namespace [] rows keyed = keyed
apply_mutations-IsKeyed namespace (set key value ∷ rest) rows keyed =
    apply_mutations-IsKeyed namespace rest (insert (slot namespace key) value rows)
      (insert-IsKeyed (slot namespace key) value rows keyed)
apply_mutations-IsKeyed namespace (delete key ∷ rest) rows keyed =
    apply_mutations-IsKeyed namespace rest (remove (slot namespace key) rows)
      (remove-IsKeyed (slot namespace key) rows keyed)
