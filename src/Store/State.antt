-- ===== src/Store/State.antt =====
-- crates/pluribus-core/src/state.rs and its implementation in crates/pluribus-store-sqlite/src/lib.rs:
-- the namespaces of components, their revisions and their entries.
pub mod Updates
pub mod Listing
pub mod Scan
pub mod Sorting
mod Tests
use pluribus.Base.{
  ℕ, ◌+◌, min, String, Bool, true, false, not, ◌&&◌, Option, none, some, List, [], ◌∷◌, Result, ok,
  err, ◌>>=◌, ◌>>◌, ok_or, ◌==◌, string_eq, Assoc, lookup, insert, remove, filter, take, length,
  ltb, leb, eqb, any, if◌then◌else◌, u64_max, i64_max, codes, strip_prefix, text_le,
}
use pluribus.Core.Delivery.{StateMutation, set, delete, StateError, CursorKey}
use pluribus.Store.Tables.{Database, PairKey, pair_eq}

pub record StateEntry : Type 0 where
  pub key : String
  pub value : List ℕ

pub record StateSnapshot : Type 0 where
  pub revision : ℕ
  pub value : Option (List ℕ)

pub record StatePage : Type 0 where
  pub entries : List StateEntry
  pub next_key : Option String
  pub revision : ℕ

abbrev pub slot : String → String → PairKey
slot namespace key = record { first = namespace; second = key }

-- A namespace without a row is at revision 0.
unfoldable pub state_revision : Database → String → ℕ
state_revision db namespace = elim (lookup namespace db.namespaces) [
  | none ↦ 0
  | some revision ↦ revision
]

unfoldable pub get : Database → String → String → StateSnapshot
get db namespace key = record {
  revision = state_revision db namespace;
  value = lookup (slot namespace key) db.component_state;
}

-- `INSERT INTO component_state_namespaces … ON CONFLICT (namespace) DO NOTHING`
unfoldable pub ensure_namespace : String → Database → Database
ensure_namespace namespace db = elim (lookup namespace db.namespaces) [
  | some revision ↦ db
  | none ↦ record db { namespaces = insert namespace 0 db.namespaces }
]

-- One mutation: an upsert, or a deletion.
unfoldable pub apply_mutation :
    String → StateMutation → Assoc PairKey (List ℕ) → Assoc PairKey (List ℕ)
apply_mutation namespace (set key value) rows = insert (slot namespace key) value rows
apply_mutation namespace (delete key) rows = remove (slot namespace key) rows

unfoldable pub apply_mutations :
    String → List StateMutation → Assoc PairKey (List ℕ) → Assoc PairKey (List ℕ)
apply_mutations namespace [] rows = rows
apply_mutations namespace (mutation ∷ mutations) rows =
    apply_mutations namespace mutations (apply_mutation namespace mutation rows)

-- `revision.checked_add(1)`, and the row that then holds it.
unfoldable pub next_revision : ℕ → Option ℕ
next_revision revision = if ltb revision u64_max then some (revision + 1) else none

-- The mutations of a transaction and the revision they make; none of them make none.
unfoldable pub mutate : String → ℕ → List StateMutation → Database → Option (ℕ × Database)
mutate namespace actual [] db = some (actual, db)
mutate namespace actual (mutation ∷ rest) db = elim (next_revision actual) [
  | none ↦ none
  | some revision ↦ some (
    revision,
    record db {
      component_state = apply_mutations namespace (mutation ∷ rest) db.component_state;
      namespaces = insert namespace revision db.namespaces;
    },
  )
]

-- The transaction of `apply`.
apply_in : Database → String → ℕ → List StateMutation → Result StateError (ℕ × Database)
apply_in db namespace expected_revision mutations =
    let created = ensure_namespace namespace db in
    let actual = state_revision created namespace in
    if not (eqb actual expected_revision)
    then err (StateError.conflict expected_revision actual)
    else ok_or (mutate namespace actual mutations created)
        (StateError.storage "state revision exhausted")

-- The tables change only when the transaction commits.
pub apply : Database → String → ℕ → List StateMutation → Result StateError ℕ × Database
apply db namespace expected_revision mutations =
    elim (apply_in db namespace expected_revision mutations) [
      | err e ↦ (err e, db)
      | ok done ↦ (ok done.0, done.1)
    ]

-- `ORDER BY key COLLATE BINARY ASC`
entry_insert : StateEntry → List StateEntry → List StateEntry
entry_insert entry [] = entry ∷ []
entry_insert entry (x ∷ xs) =
    let rest = entry_insert entry xs in if text_le entry.key x.key then entry ∷ x ∷ xs else x ∷ rest

pub sort_entries : List StateEntry → List StateEntry
sort_entries [] = []
sort_entries (x ∷ xs) = entry_insert x (sort_entries xs)

-- `substr(key, 1, length(?2)) = ?2`. SQLite's `length` of a text stops before U+0000, so a prefix
-- that holds one is longer than what it is compared with, and selects no key.
pub has_prefix : String → String → Bool
has_prefix prefix key = elim (strip_prefix (codes prefix) (codes key)) [
  | none ↦ false
  | some rest ↦ not (any (λ c. eqb c 0) (codes prefix))
]

-- `?3 IS NULL OR key > ?3`
pub is_after : Option String → String → Bool
is_after none key = true
is_after (some after_key) key = not (text_le key after_key)

-- The rows that the statement selects, before their order and limit.
pub entries_of : String → String → Option String → Assoc PairKey (List ℕ) → List StateEntry
entries_of namespace prefix after_key [] = []
entries_of namespace prefix after_key ((key, value) ∷ rows) =
    let rest = entries_of namespace prefix after_key rows in
    if (key.first == namespace) && has_prefix prefix key.second && is_after after_key key.second
    then record { key = key.second; value = value } ∷ rest
    else rest

pub last_key : List StateEntry → Option String
last_key [] = none
last_key (x ∷ []) = some x.key
last_key (x ∷ y ∷ ys) = last_key (y ∷ ys)

pub scan : Database → String → String → Option String → ℕ → StatePage
scan db namespace prefix after_key limit =
    let sql_limit = min (min (limit + 1) u64_max) i64_max in
    let entries =
      take sql_limit (sort_entries (entries_of namespace prefix after_key db.component_state)) in
    let kept = take limit entries in
    record {
      entries = kept;
      next_key = if ltb limit (length entries) then last_key kept else none;
      revision = state_revision db namespace;
    }
