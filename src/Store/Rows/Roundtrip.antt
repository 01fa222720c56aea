-- ===== src/Store/Rows/Roundtrip.antt =====
-- A row that is written reads back as the event that was committed.
use pluribus.Base.{ℕ, ◌<◌, ◌^◌, ◌≡◌, refl, String, ok, arith, ℤ, parse_u64-decimal}
use pluribus.Core.Identity.{PrincipalKind, human, agent, node, component, external}
use pluribus.Core.Event.{
  StreamKind, EventPayload, canonical_json, blob, AppendRequest, CommittedEvent, event_schema,
  validate,
}
use pluribus.Core.Event.Validation.{validate_iff}
use pluribus.Store.Rows.{
  encode_stream_kind, decode_stream_kind, encode_principal_kind, decode_principal_kind,
  encode_payload, encode_event, decode_payload, decode_event,
}

-- The size of a blob is 64 bits wide.
abbrev pub FitsWords : EventPayload → Type 0
FitsWords (canonical_json bytes) = Unit {0}
FitsWords (blob b) = b.size < 2 ^ 64

-- The event that a commit returns.
abbrev pub committed : AppendRequest → String → ℕ → ℤ → CommittedEvent
committed request event_id sequence recorded_at_ms = record {
  schema = event_schema;
  event_id = event_id;
  sequence = sequence;
  recorded_at_ms = recorded_at_ms;
  request = request;
}

stream_kind_roundtrip : (k : StreamKind) → decode_stream_kind (encode_stream_kind k) ≡ ok k
unfolding decode_stream_kind
stream_kind_roundtrip StreamKind.agent = refl
stream_kind_roundtrip StreamKind.node = refl

principal_kind_roundtrip :
    (k : PrincipalKind) → decode_principal_kind (encode_principal_kind k) ≡ ok k
unfolding encode_principal_kind decode_principal_kind
principal_kind_roundtrip human = refl
principal_kind_roundtrip agent = refl
principal_kind_roundtrip node = refl
principal_kind_roundtrip component = refl
principal_kind_roundtrip external = refl

payload_roundtrip :
    (request : AppendRequest) (p : EventPayload) (event_id : String) (sequence : ℕ)
    (recorded_at_ms : ℤ)
    → request.payload ≡ p
    → validate request ≡ ok tt
    → FitsWords p
    → decode_payload
        (encode_payload p).payload_kind
        (encode_event request event_id sequence recorded_at_ms)
      ≡ ok p
unfolding decode_payload encode_payload encode_event
payload_roundtrip request (canonical_json bytes) event_id sequence recorded_at_ms e v f =
    ground arith
payload_roundtrip request (blob b) event_id sequence recorded_at_ms e v f =
    ground (arith, parse_u64-decimal b.size, (validate_iff request).0 v)

-- For a request that passed validation, whose blob, if it has one, has a size of 64 bits,
-- decoding the row that was inserted gives the committed event back.
pub decode-encode_event :
    (request : AppendRequest) (event_id : String) (sequence : ℕ) (recorded_at_ms : ℤ)
    → validate request ≡ ok tt
    → FitsWords request.payload
    → decode_event (encode_event request event_id sequence recorded_at_ms)
      ≡ ok (committed request event_id sequence recorded_at_ms)
unfolding decode_event encode_event
decode-encode_event request event_id sequence recorded_at_ms v f = rw (
  payload_roundtrip request request.payload event_id sequence recorded_at_ms refl v f,
  stream_kind_roundtrip request.stream_kind,
  principal_kind_roundtrip request.actor.kind,
)
