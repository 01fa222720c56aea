-- ===== src/Store/Rows/Tests.antt =====
-- Runs of the encoding.
use pluribus.Base.{ok, refl, ◌≡◌, pos, arith}
use pluribus.Core.Event.{validate}
use pluribus.Core.Examples.{second_request}
use pluribus.Store.Rows.{encode_event, decode_event}
use pluribus.Store.Rows.Roundtrip.{committed, decode-encode_event}

valid : validate second_request ≡ ok tt
unfolding validate pluribus.Core.BlobRef.validate_blob_ref pluribus.Core.BlobRef.validate_media_type
valid = refl

decode-encode_event_example :
    decode_event (encode_event second_request "e-9" 9 (pos 5))
    ≡ ok (committed second_request "e-9" 9 (pos 5))
decode-encode_event_example = decode-encode_event second_request "e-9" 9 (pos 5) valid (omega arith)
