-- ===== src/Store/Delivery.antt =====
-- The deliveries of crates/pluribus-store-sqlite/src/lib.rs: `checkpoint`, `commit` and `discard`.
pub mod Commits
pub mod Refinement
pub mod Effects
pub mod Discards
mod Tests
use pluribus.Base.{
  ℕ, String, Bool, true, false, not, ◌&&◌, Option, none, some, List, [], ◌∷◌, Result, ok, err, ◌==◌,
  string_eq, Assoc, lookup, insert, remove, eqb, if◌then◌else◌,
}
use pluribus.Core.Event.{AppendRequest, CommittedEvent}
use pluribus.Core.Delivery.{
  CursorKey, DeliveryCommit, DeliveryReceipt, DeliveryError, validate, conflict, storage, append,
}
use pluribus.Store.Tables.{Database, Metadata, TextIndex, PairKey, cursor_eq}
use pluribus.Store.Events.{append_in}
use pluribus.Store.State.{state_revision, ensure_namespace, mutate}

-- A cursor without a row is at checkpoint 0.
unfoldable pub read_checkpoint : Database → CursorKey → ℕ
read_checkpoint db cursor = elim (lookup cursor db.delivery_cursors) [
  | none ↦ 0
  | some checkpoint ↦ checkpoint
]

-- `INSERT INTO delivery_cursors …`, when the delivery moves its cursor.
pub move_cursor : CursorKey → Option ℕ → Database → Database
move_cursor cursor none db = db
move_cursor cursor (some checkpoint) db = record db {
  delivery_cursors = insert cursor checkpoint db.delivery_cursors;
}

unfoldable pub checkpoint_or : ℕ → Option ℕ → ℕ
checkpoint_or stored none = stored
checkpoint_or stored (some checkpoint) = checkpoint

module _ {M : Type 0} (index : TextIndex) (metadata : Metadata M) where
  -- The loop over `commit.events`.
  pub append_all :
      M → Database → List AppendRequest → Result DeliveryError (List CommittedEvent × Database) × M
  append_all m db [] = (ok ([], db), m)
  append_all m db (request ∷ requests) =
      let (answer, m') = append_in index metadata m db request in
      elim answer [
        | err e ↦ (err (append e), m')
        | ok done ↦
            let (rest, m'') = append_all m' done.1 requests in
            elim rest [ err e ↦ (err e, m'') | ok tail ↦ (ok (done.0 ∷ tail.0, tail.1), m'') ]
      ]

  -- The end of the transaction, after the state has moved to `revision`.
  finish :
      M → DeliveryCommit → ℕ → ℕ × Database → Result DeliveryError (DeliveryReceipt × Database) × M
  finish m commit stored (revision, mutated) =
      let (appended, m') = append_all m mutated commit.events in
      elim appended [
        | err e ↦ (err e, m')
        | ok done ↦ (
          ok (
            record {
              events = done.0;
              checkpoint = checkpoint_or stored commit.checkpoint;
              revision = revision;
            },
            move_cursor commit.cursor commit.checkpoint done.1,
          ),
          m',
        )
      ]

  commit_in : M → Database → DeliveryCommit → Result DeliveryError (DeliveryReceipt × Database) × M
  commit_in m db commit = elim (validate commit) [
    | err e ↦ (err e, m)
    | ok valid ↦
        let stored = read_checkpoint db commit.cursor in
        let namespace = commit.cursor.namespace in
        let created = ensure_namespace namespace db in
        let done = finish m commit stored in
        if not (eqb stored commit.expected_checkpoint)
        then (err (conflict commit.expected_checkpoint stored), m)
        else elim (mutate namespace (state_revision created namespace) commit.mutations created) [
          | none ↦ (err (storage "state revision exhausted"), m)
          | some mutated ↦ done mutated
        ]
  ]

  -- The tables change only when the transaction commits.
  pub commit : M → Database → DeliveryCommit → Result DeliveryError DeliveryReceipt × Database × M
  commit m db delivery =
      let (answer, m') = commit_in m db delivery in
      elim answer [ err e ↦ (err e, db, m') | ok done ↦ (ok done.0, done.1, m') ]

-- `DELETE FROM component_state WHERE namespace = ?1`
pub clear_namespace : String → Assoc PairKey (List ℕ) → Assoc PairKey (List ℕ)
clear_namespace namespace [] = []
clear_namespace namespace ((key, value) ∷ rows) =
    let rest = clear_namespace namespace rows in
    if key.first == namespace then rest else (key, value) ∷ rest

pub discard : Database → CursorKey → Database
discard db cursor = record db {
  component_state = clear_namespace cursor.namespace db.component_state;
  namespaces = remove cursor.namespace db.namespaces;
  delivery_cursors = remove cursor db.delivery_cursors;
}
