-- ===== src/Store/Rows.antt =====
-- The columns of an event row, and their encoding and decoding (`insert_event`, `encode_payload`,
-- `decode_event` and the kinds).
pub mod Roundtrip
mod Tests
use pluribus.Base.{
  ℕ, zero, suc, String, Option, none, some, List, Result, ok, err, ◌>>=◌, ◌>>◌, ok_or, ℤ, decimal,
  parse_u64,
}
use pluribus.Core.Identity.{PrincipalKind, human, agent, node, component, external, PrincipalRef}
use pluribus.Core.BlobRef.{BlobRef, sha256_algorithm}
use pluribus.Core.Event.{
  StreamKind, EventPayload, canonical_json, blob, AppendRequest, CommittedEvent, event_schema,
}
use mathlib.Core.Option as Option

pub record EventRow : Type 0 where
  pub schema : String
  pub event_id : String
  pub stream_id : String
  pub stream_kind : ℕ
  pub sequence : ℕ
  pub recorded_at_ms : ℤ
  pub observed_at_ms : Option ℤ
  pub event_type : String
  pub payload_schema : String
  pub payload_kind : ℕ
  pub payload_json : Option (List ℕ)
  pub blob_digest : Option String
  pub blob_size : Option (List ℕ)
  pub blob_media_type : Option String
  pub actor_kind : ℕ
  pub actor_id : String
  pub authority_id : Option String
  pub activity_id : Option String
  pub correlation_id : Option String
  pub causation_id : Option String
  pub deduplication_key : Option String

abbrev pub encode_stream_kind : StreamKind → ℕ
encode_stream_kind StreamKind.agent = 0
encode_stream_kind StreamKind.node = 1

decode_stream_kind : ℕ → Result String StreamKind
decode_stream_kind zero = ok StreamKind.agent
decode_stream_kind (suc zero) = ok StreamKind.node
decode_stream_kind (suc (suc n)) = err "stream kind"

pub encode_principal_kind : PrincipalKind → ℕ
encode_principal_kind human = 0
encode_principal_kind agent = 1
encode_principal_kind node = 2
encode_principal_kind component = 3
encode_principal_kind external = 4

decode_principal_kind : ℕ → Result String PrincipalKind
decode_principal_kind zero = ok human
decode_principal_kind (suc zero) = ok agent
decode_principal_kind (suc (suc zero)) = ok node
decode_principal_kind (suc (suc (suc zero))) = ok component
decode_principal_kind (suc (suc (suc (suc zero)))) = ok external
decode_principal_kind (suc (suc (suc (suc (suc n))))) = err "principal kind"

-- The columns of a payload.
pub record EncodedPayload : Type 0 where
  pub payload_kind : ℕ
  pub payload_json : Option (List ℕ)
  pub blob_digest : Option String
  pub blob_size : Option (List ℕ)
  pub blob_media_type : Option String

pub encode_payload : EventPayload → EncodedPayload
encode_payload (canonical_json bytes) = record {
  payload_kind = 0;
  payload_json = some bytes;
  blob_digest = none;
  blob_size = none;
  blob_media_type = none;
}
encode_payload (blob b) = record {
  payload_kind = 1;
  payload_json = none;
  blob_digest = some b.digest;
  blob_size = some (decimal b.size);
  blob_media_type = some b.media_type;
}

-- The row that `insert_event` writes.
unfoldable pub encode_event : AppendRequest → String → ℕ → ℤ → EventRow
encode_event request event_id sequence recorded_at_ms =
    let payload = encode_payload request.payload in
    record {
      schema = event_schema;
      event_id = event_id;
      stream_id = request.stream_id;
      stream_kind = encode_stream_kind request.stream_kind;
      sequence = sequence;
      recorded_at_ms = recorded_at_ms;
      observed_at_ms = request.observed_at_ms;
      event_type = request.event_type;
      payload_schema = request.payload_schema;
      payload_kind = payload.payload_kind;
      payload_json = payload.payload_json;
      blob_digest = payload.blob_digest;
      blob_size = payload.blob_size;
      blob_media_type = payload.blob_media_type;
      actor_kind = encode_principal_kind request.actor.kind;
      actor_id = request.actor.id;
      authority_id = request.authority_id;
      activity_id = request.activity_id;
      correlation_id = request.correlation_id;
      causation_id = request.causation_id;
      deduplication_key = request.deduplication_key;
    }

-- Decoding fails with the name of the column that is corrupt.
decode_payload : ℕ → EventRow → Result String EventPayload
decode_payload zero row = do
  bytes ← ok_or row.payload_json "missing payload JSON"
  ok (canonical_json bytes)
decode_payload (suc zero) row = do
  text ← ok_or row.blob_size "missing blob size"
  size ← ok_or (parse_u64 text) "invalid blob size"
  digest ← ok_or row.blob_digest "missing blob digest"
  media_type ← ok_or row.blob_media_type "missing blob media type"
  ok (
      blob (record {
        algorithm = sha256_algorithm;
        digest = digest;
        size = size;
        media_type = media_type;
      }))
decode_payload (suc (suc n)) row = err "payload kind"

pub decode_event : EventRow → Result String CommittedEvent
decode_event row = do
  payload ← decode_payload row.payload_kind row
  stream_kind ← decode_stream_kind row.stream_kind
  actor_kind ← decode_principal_kind row.actor_kind
  ok (record {
    schema = row.schema;
    event_id = row.event_id;
    sequence = row.sequence;
    recorded_at_ms = row.recorded_at_ms;
    request = record {
      stream_id = row.stream_id;
      stream_kind = stream_kind;
      observed_at_ms = row.observed_at_ms;
      event_type = row.event_type;
      payload_schema = row.payload_schema;
      payload = payload;
      actor = record { kind = actor_kind; id = row.actor_id };
      authority_id = row.authority_id;
      activity_id = row.activity_id;
      correlation_id = row.correlation_id;
      causation_id = row.causation_id;
      deduplication_key = row.deduplication_key;
    };
  })
