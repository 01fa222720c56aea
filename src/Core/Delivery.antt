-- ===== src/Core/Delivery.antt =====
-- crates/pluribus-core/src/delivery.rs and the mutations of crates/pluribus-core/src/state.rs: one
-- atomic unit of work, and the checks shared by every store.
pub mod Errors
pub mod Validation
mod Tests
use pluribus.Base.{
  ℕ, String, Bool, true, false, not, Option, none, some, List, [], ◌∷◌, Result, ok, err, ◌>>=◌,
  ◌>>◌, fail_if, map_err, ◌==◌, string_eq, string_ord, is_empty, ltb, eqb, length, sort, dedup,
}
use pluribus.Core.Event.{AppendRequest, AppendError, CommittedEvent, is_some_and}
use pluribus.Core.Event

pub record CursorKey : Type 0 where
  pub stream_id : String
  pub namespace : String

pub data StateMutation : Type 0 where
  set : String → List ℕ → StateMutation
  delete : String → StateMutation

pub data StateError : Type 0 where
  conflict : ℕ → ℕ → StateError
  invalid : String → StateError
  storage : String → StateError

pub record DeliveryCommit : Type 0 where
  pub cursor : CursorKey
  pub expected_checkpoint : ℕ
  pub checkpoint : Option ℕ
  pub mutations : List StateMutation
  pub events : List AppendRequest

pub record DeliveryReceipt : Type 0 where
  pub events : List CommittedEvent
  pub checkpoint : ℕ
  pub revision : ℕ

pub data DeliveryError : Type 0 where
  conflict : ℕ → ℕ → DeliveryError
  regressed : ℕ → ℕ → DeliveryError
  invalid : String → DeliveryError
  append : AppendError → DeliveryError
  state : StateError → DeliveryError
  storage : String → DeliveryError

-- The cursor may not move backwards.
check_progress : ℕ → Option ℕ → Result DeliveryError (Unit {0})
check_progress expected none = ok tt
check_progress expected (some checkpoint) =
    fail_if (ltb checkpoint expected) (DeliveryError.regressed expected checkpoint)

-- The loop over the events.
validate_events : String → List AppendRequest → Result DeliveryError (Unit {0})
validate_events stream_id [] = ok tt
validate_events stream_id (event ∷ events) = do
  fail_if (not (event.stream_id == stream_id))
      (DeliveryError.invalid "event targets another stream")
  map_err DeliveryError.append (Event.validate event)
  validate_events stream_id events

-- `filter_map(|event| event.deduplication_key.as_deref())`
unfoldable pub keys_of : List AppendRequest → List String
keys_of [] = []
keys_of (event ∷ events) =
    let rest = keys_of events in
    elim event.deduplication_key [ none ↦ rest | some key ↦ key ∷ rest ]

unfoldable pub validate : DeliveryCommit → Result DeliveryError (Unit {0})
unfolding check_progress validate_events keys_of
validate commit = do
  fail_if (is_empty commit.cursor.stream_id) (DeliveryError.invalid "stream ID is empty")
  fail_if (is_empty commit.cursor.namespace) (DeliveryError.invalid "namespace is empty")
  check_progress commit.expected_checkpoint commit.checkpoint
  validate_events commit.cursor.stream_id commit.events
  let keys = keys_of commit.events
  fail_if (not (eqb (length (dedup (sort keys))) (length keys)))
      (DeliveryError.invalid "batch repeats a deduplication key")
