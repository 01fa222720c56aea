-- ===== src/Store/State/Updates.antt =====
-- `apply` against `get`: revisions, compare-and-set and isolation between namespaces.
use pluribus.Base.{
  ℕ, ◌+◌, ◌<◌, ◌≡◌, refl, sym, ap, ◌⊎◌, String, true, not, Option, none, some, List, [], ◌∷◌, ok,
  err, arith, ◌==◌, string_eq, ==_iff, ==_refl, Assoc, lookup, insert, remove, lookup-insert,
  lookup-remove, if◌then◌else◌, eqb, ltb, u64_max, is_ok, length,
}
use pluribus.Core.Delivery.{StateMutation, set, delete, StateError}
use pluribus.Store.Tables.{SameEvents, Database, PairKey, pair_eq}
use pluribus.Store.State.{
  StateSnapshot, slot, state_revision, get, ensure_namespace, apply_mutation, apply_mutations,
  next_revision, mutate, apply_in, apply,
}

-- What the mutations leave under one key: the last one that names it decides.
abbrev pub replay : List StateMutation → String → Option (List ℕ) → Option (List ℕ)
replay [] key before = before
replay (set k value ∷ rest) key before = replay rest key (if k == key then some value else before)
replay (delete k ∷ rest) key before = replay rest key (if k == key then none else before)

pub lookup-apply_mutations :
    (namespace other key : String) (mutations : List StateMutation) (rows : Assoc PairKey (List ℕ))
    → lookup (slot other key) (apply_mutations namespace mutations rows) ≡ (
        if namespace == other
        then replay mutations key (lookup (slot other key) rows)
        else lookup (slot other key) rows)
unfolding apply_mutations apply_mutation
lookup-apply_mutations namespace other key [] rows = ground arith
lookup-apply_mutations namespace other key (set k value ∷ rest) rows = ground (
  arith,
  lookup-apply_mutations namespace other key rest (insert (slot namespace k) value rows),
  lookup-insert (slot namespace k) (slot other key) value rows,
)
lookup-apply_mutations namespace other key (delete k ∷ rest) rows = ground (
  arith,
  lookup-apply_mutations namespace other key rest (remove (slot namespace k) rows),
  lookup-remove (slot namespace k) (slot other key) rows,
)

-- To put a namespace in place changes no snapshot.
pub get-ensure_namespace :
    (namespace other key : String) (db : Database)
    → get (ensure_namespace namespace db) other key ≡ get db other key
unfolding get state_revision ensure_namespace
get-ensure_namespace namespace other key db =
    ground (arith, lookup-insert namespace other 0 db.namespaces, ==_iff namespace other)

pub mutate_lem :
    (namespace other key : String) (actual revision : ℕ) (mutations : List StateMutation)
    (db after : Database)
    → state_revision db namespace ≡ actual
    → mutate namespace actual mutations db ≡ some (revision, after)
    → get after other key ≡ (
        if namespace == other
        then record { revision = revision; value = replay mutations key (get db other key).value }
        else get db other key)
unfolding mutate next_revision get state_revision
mutate_lem namespace other key actual revision [] db after c h =
    ground (arith, ==_iff namespace other)
mutate_lem namespace other key actual revision (m ∷ rest) db after c h = ground (
  arith,
  lookup-apply_mutations namespace other key (m ∷ rest) db.component_state,
  lookup-insert namespace other revision db.namespaces,
)

pub revision-ensure_namespace :
    (namespace other : String) (db : Database)
    → state_revision (ensure_namespace namespace db) other ≡ state_revision db other
unfolding get
revision-ensure_namespace namespace other db =
    ap (λ (s : StateSnapshot). s.revision) (get-ensure_namespace namespace other namespace db)

-- An update that commits moves its namespace to the answered revision and its entries to what the
-- mutations leave; every other namespace keeps its revision and entries.
pub get-apply :
    (db after : Database) (namespace other key : String) (expected revision : ℕ)
    (mutations : List StateMutation)
    → apply db namespace expected mutations ≡ (ok revision, after)
    → get after other key ≡ (
        if namespace == other
        then record { revision = revision; value = replay mutations key (get db other key).value }
        else get db other key)
unfolding apply apply_in
get-apply db after namespace other key expected revision mutations h =
    let created = ensure_namespace namespace db in
    let done : mutate namespace (state_revision created namespace) mutations created
        ≡ some (revision, after) =
      ground arith in
    rw (sym (get-ensure_namespace namespace other key db)) (
      mutate_lem namespace other key (state_revision created namespace) revision mutations created
        after refl done)

-- The answer of an update, on every branch.
pub apply_answer :
    (db : Database) (namespace : String) (expected : ℕ) (mutations : List StateMutation)
    → (apply db namespace expected mutations).0 ≡ (
        if not (eqb (state_revision db namespace) expected)
        then err (StateError.conflict expected (state_revision db namespace))
        else if eqb (length mutations) 0
        then ok expected
        else if ltb expected u64_max
        then ok (expected + 1)
        else err (StateError.storage "state revision exhausted"))
unfolding apply apply_in mutate next_revision
apply_answer db namespace expected [] =
    ground (arith, revision-ensure_namespace namespace namespace db)
apply_answer db namespace expected (m ∷ rest) =
    ground (arith, revision-ensure_namespace namespace namespace db)

-- Of two updates that expect the same revision and change something, the second finds the conflict.
pub apply-apply_conflict :
    (db after : Database) (namespace : String) (expected revision : ℕ)
    (mutations others : List StateMutation)
    → apply db namespace expected mutations ≡ (ok revision, after)
    → 0 < length mutations
    → apply after namespace expected others ≡ (err (StateError.conflict expected revision), after)
unfolding apply apply_in mutate next_revision get
apply-apply_conflict db after namespace expected revision [] others h n = absurd (omega arith)
apply-apply_conflict db after namespace expected revision (m ∷ rest) others h n = ground (
  arith,
  revision-ensure_namespace namespace namespace db,
  revision-ensure_namespace namespace namespace after,
  ==_refl namespace,
  get-apply db after namespace namespace namespace expected revision (m ∷ rest) h,
)

-- An update that fails leaves the tables as they were.
pub apply_rolls_back :
    (db : Database) (namespace : String) (expected : ℕ) (mutations : List StateMutation)
    → (is_ok (apply db namespace expected mutations).0 ≡ true)
      ⊎ ((apply db namespace expected mutations).1 ≡ db)
unfolding apply
apply_rolls_back db namespace expected mutations = ground arith

-- The state of components stands apart from the events.
pub ensure_namespace-SameEvents :
    (namespace : String) (db : Database) → SameEvents db (ensure_namespace namespace db)
unfolding ensure_namespace
ensure_namespace-SameEvents namespace db = ground arith

pub mutate-SameEvents :
    (namespace : String) (actual : ℕ) (mutations : List StateMutation) (db : Database)
    (revision : ℕ) (after : Database)
    → mutate namespace actual mutations db ≡ some (revision, after)
    → SameEvents db after
unfolding mutate next_revision
mutate-SameEvents namespace actual [] db revision after h = ground arith
mutate-SameEvents namespace actual (m ∷ rest) db revision after h = ground arith

-- A namespace holds cursors' states, not the cursors.
pub ensure_namespace-cursors :
    (namespace : String) (db : Database)
    → (ensure_namespace namespace db).delivery_cursors ≡ db.delivery_cursors
unfolding ensure_namespace
ensure_namespace-cursors namespace db = ground arith

pub mutate-cursors :
    (namespace : String) (actual : ℕ) (mutations : List StateMutation) (db : Database)
    (revision : ℕ) (after : Database)
    → mutate namespace actual mutations db ≡ some (revision, after)
    → after.delivery_cursors ≡ db.delivery_cursors
unfolding mutate next_revision
mutate-cursors namespace actual [] db revision after h = ground arith
mutate-cursors namespace actual (m ∷ rest) db revision after h = ground arith
