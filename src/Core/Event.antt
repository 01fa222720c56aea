-- ===== src/Core/Event.antt =====
-- crates/pluribus-core/src/event.rs: events, their validation and the metadata filter.
pub mod Filter
pub mod Validation
mod Tests
use pluribus.Base.{
  ℕ, String, Bool, true, false, not, ◌||◌, ◌&&◌, Option, none, some, List, [], ◌∷◌, Result, ok, err,
  ◌>>=◌, ◌>>◌, fail_if, map_err, ◌==◌, string_eq, option_eq, is_empty, any, leb, if◌then◌else◌, ℤ,
  ltb_ℤ,
}
use pluribus.Core.Identity.{PrincipalRef}
use pluribus.Core.BlobRef.{BlobRef, BlobError, validate_blob_ref}

pub data StreamKind : Type 0 where
  agent node : StreamKind

pub data EventPayload : Type 0 where
  canonical_json : List ℕ → EventPayload
  blob : BlobRef → EventPayload

pub record AppendRequest : Type 0 where
  pub stream_id : String
  pub stream_kind : StreamKind
  pub observed_at_ms : Option ℤ
  pub event_type : String
  pub payload_schema : String
  pub payload : EventPayload
  pub actor : PrincipalRef
  pub authority_id : Option String
  pub activity_id : Option String
  pub correlation_id : Option String
  pub causation_id : Option String
  pub deduplication_key : Option String

-- `invalid_blob` is `InvalidEvent` of the blob error's own message.
pub data AppendError : Type 0 where
  invalid_event : String → AppendError
  invalid_blob : BlobError → AppendError
  storage : String → AppendError

abbrev pub is_some_and {ℓ} : {A : Type ℓ} → Option A → (A → Bool) → Bool
is_some_and none p = false
is_some_and (some a) p = p a

validate_payload : EventPayload → Result AppendError (Unit {0})
validate_payload (canonical_json bytes) = ok tt
validate_payload (blob b) = map_err invalid_blob (validate_blob_ref b)

unfoldable pub validate : AppendRequest → Result AppendError (Unit {0})
unfolding validate_payload
validate request = do
  fail_if (is_empty request.stream_id) (invalid_event "stream ID is empty")
  fail_if (is_empty request.event_type) (invalid_event "event type is empty")
  fail_if (is_empty request.payload_schema) (invalid_event "payload schema is empty")
  fail_if (is_some_and request.deduplication_key is_empty)
      (invalid_event "deduplication key is empty")
  validate_payload request.payload

pub record CommittedEvent : Type 0 where
  pub schema : String
  pub event_id : String
  pub sequence : ℕ
  pub recorded_at_ms : ℤ
  pub request : AppendRequest

abbrev pub event_schema : String
event_schema = "pluribus.event/1"

pub record EventQuery : Type 0 where
  pub after_sequence : Option ℕ
  pub before_sequence : Option ℕ
  pub event_types : List String
  pub text_query : Option String
  pub descending : Bool
  pub correlation_id : Option String
  pub activity_id : Option String
  pub recorded_from_ms : Option ℤ
  pub recorded_to_ms : Option ℤ

-- `EventQuery::default()`
abbrev pub default_query : EventQuery
default_query = record {
  after_sequence = none;
  before_sequence = none;
  event_types = [];
  text_query = none;
  descending = false;
  correlation_id = none;
  activity_id = none;
  recorded_from_ms = none;
  recorded_to_ms = none;
}

abbrev pub is_some {ℓ} : {A : Type ℓ} → Option A → Bool
is_some none = false
is_some (some a) = true

abbrev pub no_types : List String → Bool
no_types [] = true
no_types (t ∷ ts) = false

unfoldable pub matches : EventQuery → CommittedEvent → Bool
matches query event =
    if is_some_and query.after_sequence (λ after. leb event.sequence after)
    then false
    else if is_some_and query.before_sequence (λ before. leb before event.sequence)
    then false
    else if not (no_types query.event_types)
        && not (any (λ event_type. event_type == event.request.event_type) query.event_types)
    then false
    else if is_some query.correlation_id
        && not (query.correlation_id == event.request.correlation_id)
    then false
    else if is_some query.activity_id && not (query.activity_id == event.request.activity_id)
    then false
    else if is_some_and query.recorded_from_ms (λ from. ltb_ℤ event.recorded_at_ms from)
    then false
    else if is_some_and query.recorded_to_ms (λ to. ltb_ℤ to event.recorded_at_ms)
    then false
    else true
