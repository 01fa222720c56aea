-- ===== src/Store/Delivery/Discards.antt =====
-- `discard`: a namespace and its cursor are gone, and nothing else is.
use pluribus.Base.{
  ℕ, ◌≡◌, String, none, List, [], ◌∷◌, arith, if◌then◌else◌, Assoc, lookup, lookup-remove, ◌==◌,
  string_eq, ==_iff,
}
use pluribus.Core.Delivery.{CursorKey}
use pluribus.Store.Tables.{Database, PairKey, pair_eq, cursor_eq}
use pluribus.Store.State.{slot, get, state_revision}
use pluribus.Store.Delivery.{read_checkpoint, clear_namespace, discard}

lookup-clear_namespace :
    (namespace other key : String) (rows : Assoc PairKey (List ℕ))
    → lookup (slot other key) (clear_namespace namespace rows)
      ≡ (if namespace == other then none else lookup (slot other key) rows)
unfolding clear_namespace lookup
lookup-clear_namespace namespace other key [] = ground arith
lookup-clear_namespace namespace other key ((k, value) ∷ rows) = ground (
  arith,
  lookup-clear_namespace namespace other key rows,
  ==_iff k.first namespace,
  ==_iff k.first other,
  ==_iff namespace other,
)

-- A discarded namespace reads as one that was never written; every other namespace is as before.
pub get-discard :
    (db : Database) (cursor : CursorKey) (namespace key : String)
    → get (discard db cursor) namespace key ≡ (
        if cursor.namespace == namespace
        then record { revision = 0; value = none }
        else get db namespace key)
unfolding get state_revision discard
get-discard db cursor namespace key = ground (
  arith,
  lookup-clear_namespace cursor.namespace namespace key db.component_state,
  lookup-remove cursor.namespace namespace db.namespaces,
)

-- A discarded cursor reads as 0, every other cursor as before, and the events stay.
pub checkpoint-discard :
    (db : Database) (cursor other : CursorKey)
    → (read_checkpoint (discard db cursor) other
        ≡ (if cursor == other then 0 else read_checkpoint db other))
      × ((discard db cursor).events ≡ db.events)
unfolding read_checkpoint discard
checkpoint-discard db cursor other = ground (arith, lookup-remove cursor other db.delivery_cursors)
