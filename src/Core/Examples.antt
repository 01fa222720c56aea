-- ===== src/Core/Examples.antt =====
-- Values that the tests of the modules share.
use pluribus.Base.{String, [], ◌∷◌, none, some, true}
use pluribus.Core.Identity.{PrincipalRef, component}
use pluribus.Core.BlobRef.{BlobRef, sha256_algorithm}
use pluribus.Core.Event.{AppendRequest, StreamKind, canonical_json, blob, EventQuery, default_query}
use pluribus.Core.Delivery.{CursorKey, DeliveryCommit, set}

abbrev pub shell_ref : PrincipalRef
shell_ref = record { kind = component; id = "shell" }

abbrev pub digest_of_any : String
digest_of_any = "0123456789abcdef0123456789abcdef0123456789abcdef0123456789abcdef"

abbrev pub text_blob : BlobRef
text_blob = record {
  algorithm = sha256_algorithm;
  digest = digest_of_any;
  size = 3;
  media_type = "text/plain";
}

abbrev pub first_request : AppendRequest
first_request = record {
  stream_id = "agent:1";
  stream_kind = StreamKind.agent;
  observed_at_ms = none;
  event_type = "model.requested";
  payload_schema = "pluribus.model-request/1";
  payload = canonical_json (123 ∷ 125 ∷ []);
  actor = shell_ref;
  authority_id = none;
  activity_id = none;
  correlation_id = some "turn-1";
  causation_id = none;
  deduplication_key = some "key-1";
}

abbrev pub second_request : AppendRequest
second_request = record first_request { payload = blob text_blob; deduplication_key = none }

abbrev pub turn_query : EventQuery
turn_query = record default_query { correlation_id = some "turn-1"; descending = true }

abbrev pub cursor : CursorKey
cursor = record { stream_id = "agent:1"; namespace = "shell" }

abbrev pub first_delivery : DeliveryCommit
first_delivery = record {
  cursor = cursor;
  expected_checkpoint = 0;
  checkpoint = some 4;
  mutations = set "job" (1 ∷ []) ∷ [];
  events = first_request ∷ second_request ∷ [];
}
