-- ===== src/Store/Delivery/Commits.antt =====
-- A delivery that commits, taken apart, and one that fails.
use pluribus.Base.{
  ℕ, ◌≡◌, ◌≢◌, ◌↔◌, List, [], ◌∷◌, err, inl, inr, Option, some, ok, arith, Option-cases, Bool-cases,
  Result-cases, eqb,
}
use pluribus.Core.Delivery.{DeliveryCommit, DeliveryReceipt, conflict, validate}
use pluribus.Core.Delivery.Errors.{NoConflict, validate-NoConflict}
use pluribus.Core.Event.{AppendRequest}
use pluribus.Store.Events.{append_in}
use pluribus.Store.Tables.{Database, Metadata, TextIndex}
use pluribus.Store.State.{state_revision, ensure_namespace, mutate}
use pluribus.Store.Delivery.{
  read_checkpoint, move_cursor, checkpoint_or, append_all, finish, commit_in, commit,
}

-- The state update of the delivery.
abbrev pub mutate_for : Database → DeliveryCommit → Option (ℕ × Database)
mutate_for db delivery =
    let namespace = delivery.cursor.namespace in
    let created = ensure_namespace namespace db in
    mutate namespace (state_revision created namespace) delivery.mutations created

-- What a delivery that commits has done, step by step.
pub record Committed {M : Type 0} (index : TextIndex) (metadata : Metadata M) (m m' : M)
    (db after : Database) (delivery : DeliveryCommit) (receipt : DeliveryReceipt) : Type 0 where
  pub valid : validate delivery ≡ ok tt
  pub stored : read_checkpoint db delivery.cursor ≡ delivery.expected_checkpoint
  pub mutated : Database
  pub appended : Database
  pub mutation : mutate_for db delivery ≡ some (receipt.revision, mutated)
  pub appends :
      append_all index metadata m mutated delivery.events ≡ (ok (receipt.events, appended), m')
  pub checkpoint :
      receipt.checkpoint ≡ checkpoint_or (read_checkpoint db delivery.cursor) delivery.checkpoint
  pub moved : after ≡ move_cursor delivery.cursor delivery.checkpoint appended

module _ {M : Type 0} (index : TextIndex) (metadata : Metadata M) where
  pub commit-Committed :
      (m m' : M) (db after : Database) (delivery : DeliveryCommit) (receipt : DeliveryReceipt)
      → commit index metadata m db delivery ≡ (ok receipt, after, m')
      → Committed index metadata m m' db after delivery receipt
  unfolding commit commit_in finish
  commit-Committed m m' db after delivery receipt h = elim (Result-cases (validate delivery)) [
    | inr (e, v) ↦ absurd (ground arith)
    | inl (_, v) ↦
        elim (Bool-cases (eqb (read_checkpoint db delivery.cursor) delivery.expected_checkpoint)) [
          | inr stale ↦ absurd (ground arith)
          | inl fresh ↦ elim (Option-cases (mutate_for db delivery)) [
            | inl full ↦ absurd (ground arith)
            | inr ((revision, mutated), e) ↦
                elim (Result-cases (append_all index metadata m mutated delivery.events).0) [
                  | inr (er, a) ↦ absurd (ground arith)
                  | inl ((events, appended), a) ↦ record {
                    valid = v;
                    stored = ground arith;
                    mutated = mutated;
                    appended = appended;
                    mutation = ground arith;
                    appends = ground arith;
                    checkpoint = ground arith;
                    moved = ground arith;
                  }
                ]
          ]
        ]
  ]

  append_all-NoConflict :
      (m : M) (db : Database) (requests : List AppendRequest)
      → NoConflict (append_all index metadata m db requests).0
  unfolding append_all
  append_all-NoConflict m db [] expected actual h = ground arith
  append_all-NoConflict m db (request ∷ requests) expected actual h =
      elim (Result-cases (append_in index metadata m db request).0) [
        | inr (e, a) ↦ ground arith
        | inl ((event, between), a) ↦
            let next_m = (append_in index metadata m db request).1 in
            ground (arith, append_all-NoConflict next_m between requests expected actual)
      ]

  finish-NoConflict :
      (m : M) (delivery : DeliveryCommit) (stored revision : ℕ) (mutated : Database)
      → NoConflict (finish index metadata m delivery stored (revision, mutated)).0
  unfolding finish
  finish-NoConflict m delivery stored revision mutated expected actual h =
      ground (arith, append_all-NoConflict m mutated delivery.events expected actual)

  -- A delivery is refused with a conflict of checkpoints exactly when it is valid and the stored
  -- checkpoint is not the one that it expects; the conflict names the two. No other failure, of the
  -- validation, the state or an event, is reported as one.
  pub commit_conflict_iff :
      (m : M) (db : Database) (delivery : DeliveryCommit) (expected actual : ℕ)
      → ((commit index metadata m db delivery).0 ≡ err (conflict expected actual)) ↔ (
          (validate delivery ≡ ok tt)
          × (expected ≡ delivery.expected_checkpoint)
          × (actual ≡ read_checkpoint db delivery.cursor)
          × (expected ≢ actual))
  unfolding commit commit_in
  commit_conflict_iff m db delivery expected actual = elim (Result-cases (validate delivery)) [
    | inr (e, v) ↦
        let other = validate-NoConflict delivery expected actual in
        rw (v, commit, commit_in) (ground arith)
    | inl (_, v) ↦
        elim (Bool-cases (eqb (read_checkpoint db delivery.cursor) delivery.expected_checkpoint)) [
          | inr stale ↦ rw (v, stale, commit, commit_in) (ground arith)
          | inl fresh ↦ elim (Option-cases (mutate_for db delivery)) [
            | inl full ↦ rw (v, fresh, full, commit, commit_in) (ground arith)
            | inr ((revision, mutated), e) ↦
                let other =
                  finish-NoConflict m delivery (read_checkpoint db delivery.cursor) revision mutated
                    expected actual in
                elim (Result-cases
                  (finish index metadata m delivery (read_checkpoint db delivery.cursor)
                    (revision, mutated)).0) [
                      | inl (done, f) ↦ rw (v, fresh, e, commit, commit_in) (ground arith)
                      | inr (failure, f) ↦ rw (v, fresh, e, commit, commit_in) (ground arith)
                    ]
          ]
        ]
  ]
