-- ===== src/Store/Events/Frame.antt =====
-- A commit of an event leaves the tables of states and cursors alone.
use pluribus.Base.{ℕ, ◌≡◌, refl, inl, inr, ok, arith, Option-cases, Result-cases, lookup, string_eq}
use pluribus.Core.Event.{AppendRequest, CommittedEvent}
use pluribus.Store.Tables.{Database, Metadata, TextIndex}
use pluribus.Store.Events.{
  existing, next, ensure_stream, prepare, check_stream, insert_event, assign, append_in,
}

-- The same namespaces, entries and cursors.
pub record SameState (db after : Database) : Type 0 where
  pub namespaces : after.namespaces ≡ db.namespaces
  pub component_state : after.component_state ≡ db.component_state
  pub delivery_cursors : after.delivery_cursors ≡ db.delivery_cursors

ensure_stream-SameState :
    (request : AppendRequest) (db : Database) → SameState db (ensure_stream request db)
unfolding ensure_stream
ensure_stream-SameState request db = elim (Option-cases (lookup request.stream_id db.streams)) [
  | inl e ↦
      rw (e, ensure_stream)
        (record { namespaces = refl; component_state = refl; delivery_cursors = refl })
  | inr (row, e) ↦
      rw (e, ensure_stream)
        (record { namespaces = refl; component_state = refl; delivery_cursors = refl })
]

prepare-created :
    (db created : Database) (request : AppendRequest) (sequence : ℕ)
    → prepare db request ≡ ok (next created sequence)
    → created ≡ ensure_stream request db
unfolding prepare check_stream
prepare-created db created request sequence h = ground arith

module _ {M : Type 0} (index : TextIndex) (metadata : Metadata M) where
  assign-SameState :
      (m m' : M) (db after : Database) (request : AppendRequest) (sequence : ℕ)
      (event : CommittedEvent)
      → assign index metadata m db request sequence ≡ (ok (event, after), m')
      → SameState db after
  unfolding assign insert_event
  assign-SameState m m' db after request sequence event h = record {
    namespaces = ground arith;
    component_state = ground arith;
    delivery_cursors = ground arith;
  }

  pub append_in-SameState :
      (m m' : M) (db after : Database) (request : AppendRequest) (event : CommittedEvent)
      → append_in index metadata m db request ≡ (ok (event, after), m')
      → SameState db after
  unfolding append_in
  append_in-SameState m m' db after request event h = elim (Result-cases (prepare db request)) [
    | inr (er, e) ↦ absurd (ground arith)
    | inl (existing original, e) ↦ record {
      namespaces = ground arith;
      component_state = ground arith;
      delivery_cursors = ground arith;
    }
    | inl (next created sequence, e) ↦
        let a = assign-SameState m m' created after request sequence event (ground arith) in
        let p = prepare-created db created request sequence e in
        let b = ensure_stream-SameState request db in
        record {
          namespaces = ground (arith, a.namespaces, b.namespaces);
          component_state = ground (arith, a.component_state, b.component_state);
          delivery_cursors = ground (arith, a.delivery_cursors, b.delivery_cursors);
        }
  ]
