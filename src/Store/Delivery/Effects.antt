-- ===== src/Store/Delivery/Effects.antt =====
-- What a delivery that commits leaves: its state, its cursor and what a second delivery finds.
use mathlib.Core.Path.{subst}
use pluribus.Base.{
  ℕ, ◌≤◌, ◌<◌, ◌≡◌, refl, ap, ◌∙◌, inl, inr, String, Option, none, some, List, [], ◌∷◌, ok, err,
  arith, Option-cases, Result-cases, if◌then◌else◌, lookup-insert, ◌==◌, string_eq,
}
use pluribus.Core.Event.{AppendRequest, CommittedEvent}
use pluribus.Core.Delivery.{CursorKey, DeliveryCommit, DeliveryReceipt, validate, conflict}
use pluribus.Core.Delivery.Validation.{validate_commit_iff}
use pluribus.Store.Tables.{Database, Metadata, TextIndex, cursor_eq, cursor_beq_iff}
use pluribus.Store.Events.{append_in}
use pluribus.Store.Events.Frame.{SameState, append_in-SameState}
use pluribus.Store.State.{state_revision, ensure_namespace, get}
use pluribus.Store.State.Updates.{
  replay, mutate_lem, get-ensure_namespace, ensure_namespace-cursors, mutate-cursors,
}
use pluribus.Store.Delivery.{
  read_checkpoint, move_cursor, checkpoint_or, append_all, commit_in, commit,
}
use pluribus.Store.Delivery.Commits.{commit-Committed}

SameState-refl : (db : Database) → SameState db db
SameState-refl db = record { namespaces = refl; component_state = refl; delivery_cursors = refl }

SameState-trans : (a b c : Database) → SameState a b → SameState b c → SameState a c
SameState-trans a b c p q = record {
  namespaces = q.namespaces ∙ p.namespaces;
  component_state = q.component_state ∙ p.component_state;
  delivery_cursors = q.delivery_cursors ∙ p.delivery_cursors;
}

-- Snapshots and checkpoints depend on the tables of states and cursors only.
get-SameState :
    (db after : Database) (namespace key : String)
    → SameState db after
    → get after namespace key ≡ get db namespace key
unfolding get state_revision
get-SameState db after namespace key s = ground (arith, s.namespaces, s.component_state)

get-move_cursor :
    (cursor : CursorKey) (to : Option ℕ) (db : Database) (namespace key : String)
    → get (move_cursor cursor to db) namespace key ≡ get db namespace key
unfolding get state_revision move_cursor
get-move_cursor cursor none db namespace key = refl
get-move_cursor cursor (some checkpoint) db namespace key = refl

checkpoint-move_cursor :
    (cursor other : CursorKey) (to : Option ℕ) (db : Database)
    → read_checkpoint (move_cursor cursor to db) other ≡ (
        if cursor == other
        then checkpoint_or (read_checkpoint db cursor) to
        else read_checkpoint db other)
unfolding read_checkpoint move_cursor checkpoint_or
checkpoint-move_cursor cursor other none db =
    ground (arith, ap (read_checkpoint db) {x = cursor} {y = other}, cursor_beq_iff cursor other)
checkpoint-move_cursor cursor other (some checkpoint) db =
    ground (arith, lookup-insert cursor other checkpoint db.delivery_cursors)

checkpoint_same :
    (db after : Database) (cursor : CursorKey)
    → after.delivery_cursors ≡ db.delivery_cursors
    → read_checkpoint after cursor ≡ read_checkpoint db cursor
unfolding read_checkpoint
checkpoint_same db after cursor e = ground arith

module _ {M : Type 0} (index : TextIndex) (metadata : Metadata M) where
  append_all-SameState :
      (m m' : M) (db after : Database) (requests : List AppendRequest)
      (events : List CommittedEvent)
      → append_all index metadata m db requests ≡ (ok (events, after), m')
      → SameState db after
  unfolding append_all
  append_all-SameState m m' db after [] events h =
      subst (SameState db) (ground arith) (SameState-refl db)
  append_all-SameState m m' db after (request ∷ requests) events h =
      elim (Result-cases (append_in index metadata m db request).0) [
        | inr (e, a) ↦ absurd (ground arith)
        | inl ((event, between), a) ↦
            let next_m = (append_in index metadata m db request).1 in
            let first =
              append_in-SameState index metadata m next_m db between request event (ground arith) in
            elim (Result-cases (append_all index metadata next_m between requests).0) [
              | inr (e, b) ↦ absurd (ground arith)
              | inl ((rest, last), b) ↦
                  let tail =
                    append_all-SameState next_m
                      (append_all index metadata next_m between requests).1 between last requests
                      rest (ground arith) in
                  subst (SameState db) (ground arith) (SameState-trans db between last first tail)
            ]
      ]

  -- A delivery that commits moves its namespace to the revision of the receipt and its entries to
  -- what the mutations leave; every other namespace is as before.
  pub commit_state :
      (m m' : M) (db after : Database) (delivery : DeliveryCommit) (receipt : DeliveryReceipt)
      (namespace key : String)
      → commit index metadata m db delivery ≡ (ok receipt, after, m')
      → get after namespace key ≡ (
          if delivery.cursor.namespace == namespace
          then record {
            revision = receipt.revision;
            value = replay delivery.mutations key (get db namespace key).value;
          }
          else get db namespace key)
  commit_state m m' db after delivery receipt namespace key h =
      let c = commit-Committed index metadata m m' db after delivery receipt h in
      let own = delivery.cursor.namespace in
      let created = ensure_namespace own db in
      ap (λ d. get d namespace key) c.moved
      ∙ get-move_cursor delivery.cursor delivery.checkpoint c.appended namespace key
      ∙ get-SameState c.mutated c.appended namespace key
          (append_all-SameState m m' c.mutated c.appended delivery.events receipt.events c.appends)
      ∙ mutate_lem own namespace key (state_revision created own) receipt.revision
          delivery.mutations created c.mutated refl c.mutation
      ∙ ap
          (λ s.
            if own == namespace
            then record {
              revision = receipt.revision;
              value = replay delivery.mutations key s.value;
            }
            else s)
          (get-ensure_namespace own namespace key db)

  -- A delivery that commits moves its cursor to the checkpoint of the receipt and no other cursor.
  pub commit_checkpoint :
      (m m' : M) (db after : Database) (delivery : DeliveryCommit) (receipt : DeliveryReceipt)
      (cursor : CursorKey)
      → commit index metadata m db delivery ≡ (ok receipt, after, m')
      → read_checkpoint after cursor
        ≡ (if delivery.cursor == cursor then receipt.checkpoint else read_checkpoint db cursor)
  commit_checkpoint m m' db after delivery receipt cursor h =
      let c = commit-Committed index metadata m m' db after delivery receipt h in
      let own = delivery.cursor.namespace in
      let created = ensure_namespace own db in
      let kept : c.appended.delivery_cursors ≡ db.delivery_cursors =
        (append_all-SameState m m' c.mutated c.appended delivery.events receipt.events
          c.appends).delivery_cursors
        ∙ mutate-cursors own (state_revision created own) delivery.mutations created
            receipt.revision c.mutated c.mutation
        ∙ ensure_namespace-cursors own db in
      ground (
        arith,
        ap (λ d. read_checkpoint d cursor) c.moved,
        c.checkpoint,
        checkpoint-move_cursor delivery.cursor cursor delivery.checkpoint c.appended,
        checkpoint_same db c.appended cursor kept,
        checkpoint_same db c.appended delivery.cursor kept,
      )

  -- No delivery that commits takes a cursor back.
  pub commit_advances :
      (m m' : M) (db after : Database) (delivery : DeliveryCommit) (receipt : DeliveryReceipt)
      (cursor : CursorKey)
      → commit index metadata m db delivery ≡ (ok receipt, after, m')
      → read_checkpoint db cursor ≤ read_checkpoint after cursor
  unfolding checkpoint_or
  commit_advances m m' db after delivery receipt cursor h =
      let c = commit-Committed index metadata m m' db after delivery receipt h in
      let progress = ((validate_commit_iff delivery).0 c.valid).progress in
      elim (Option-cases delivery.checkpoint) [
        | inl still ↦ ground (
          arith,
          commit_checkpoint m m' db after delivery receipt cursor h,
          c.checkpoint,
          c.stored,
          progress,
          cursor_beq_iff delivery.cursor cursor,
          ap (read_checkpoint db) {x = delivery.cursor} {y = cursor},
        )
        | inr (to, moved) ↦ ground (
          arith,
          commit_checkpoint m m' db after delivery receipt cursor h,
          c.checkpoint,
          c.stored,
          progress,
          cursor_beq_iff delivery.cursor cursor,
          ap (read_checkpoint db) {x = delivery.cursor} {y = cursor},
        )
      ]

  -- Once a delivery has committed and moved its cursor forward, every later valid delivery on the
  -- same cursor that still expects the checkpoint before it, applied to the tables that the first
  -- one left, is refused with a conflict and changes nothing.
  pub commit-commit_conflict :
      (m m' later : M) (db after : Database) (delivery again : DeliveryCommit)
      (receipt : DeliveryReceipt) (checkpoint : ℕ)
      → commit index metadata m db delivery ≡ (ok receipt, after, m')
      → delivery.checkpoint ≡ some checkpoint
      → delivery.expected_checkpoint < checkpoint
      → validate again ≡ ok tt
      → again.cursor ≡ delivery.cursor
      → again.expected_checkpoint ≡ delivery.expected_checkpoint
      → commit index metadata later after again
        ≡ (err (conflict delivery.expected_checkpoint checkpoint), after, later)
  unfolding commit commit_in checkpoint_or
  commit-commit_conflict m m' later db after delivery again receipt checkpoint h to moves valid same
        expects =
      let c = commit-Committed index metadata m m' db after delivery receipt h in
      let now : read_checkpoint after again.cursor ≡ checkpoint = ground (
        arith,
        commit_checkpoint m m' db after delivery receipt again.cursor h,
        c.checkpoint,
        cursor_beq_iff delivery.cursor again.cursor,
      ) in
      ground (arith, now)
