-- ===== src/Core/Delivery/Validation.antt =====
-- What the validation of a delivery accepts.
use pluribus.Base.{
  ℕ, ◌≤◌, ◌≡◌, ◌↔◌, String, List, [], ◌∷◌, Option, none, some, ok, arith, All, Holds, Distinct,
  length-dedup-sort_iff, ==_iff, string_eq, string_ord,
}
use pluribus.Core.Event.{AppendRequest}
use pluribus.Core.Event.Validation
use pluribus.Core.Event.Validation.{NonEmpty, is_empty_iff, validate_iff}
use pluribus.Core.Delivery.{DeliveryCommit, validate, validate_events, check_progress, keys_of}

-- A request for the stream of the cursor that is valid by itself.
pub record IsValidFor (stream_id : String) (event : AppendRequest) : Type 0 where
  pub stream : event.stream_id ≡ stream_id
  pub valid : Validation.IsValid event

pub record IsValidCommit (commit : DeliveryCommit) : Type 0 where
  pub stream_id : NonEmpty commit.cursor.stream_id
  pub namespace : NonEmpty commit.cursor.namespace
  pub progress : Holds (λ checkpoint. commit.expected_checkpoint ≤ checkpoint) commit.checkpoint
  pub events : All (IsValidFor commit.cursor.stream_id) commit.events
  pub keys : Distinct (keys_of commit.events)

validate_events_iff :
    (stream_id : String) (events : List AppendRequest)
    → (validate_events stream_id events ≡ ok tt) ↔ All (IsValidFor stream_id) events
unfolding validate_events
validate_events_iff s [] = ground arith
validate_events_iff s (event ∷ events) =
    ground (arith, ==_iff event.stream_id s, validate_iff event, validate_events_iff s events)

check_progress_iff :
    (expected : ℕ) (checkpoint : Option ℕ)
    → (check_progress expected checkpoint ≡ ok tt) ↔ Holds (λ c. expected ≤ c) checkpoint
unfolding check_progress
check_progress_iff expected none = ground arith
check_progress_iff expected (some c) = ground arith

-- A delivery is accepted exactly when its identifiers are not empty, its checkpoint does not
-- regress, every event is valid and targets the stream of the cursor, and no key stands twice.
pub validate_commit_iff :
    (commit : DeliveryCommit) → (validate commit ≡ ok tt) ↔ IsValidCommit commit
unfolding validate
validate_commit_iff commit = ground (
  arith,
  is_empty_iff commit.cursor.stream_id,
  is_empty_iff commit.cursor.namespace,
  check_progress_iff commit.expected_checkpoint commit.checkpoint,
  validate_events_iff commit.cursor.stream_id commit.events,
  length-dedup-sort_iff (keys_of commit.events),
)
