-- ===== src/Core/Blob/Tests.antt =====
-- Runs of uploads. The digest of the tests is one text for all bytes.
use pluribus.Base.{
  ℕ, ok, refl, ◌≡◌, String, List, [], ◌∷◌, Option, none, some, Result, take, drop, concat, leb, ◌+◌,
  arith, length, lookup, list_eq, nat_eq, codes, All,
}
use pluribus.Core.BlobRef.{BlobRef, BlobError}
use pluribus.Core.Blob.{
  InMemoryBlobStore, MemoryUpload, new_store, upload_id, begin_put, write, finish_put, read,
}
use pluribus.Core.Blob.Invariant.{
  IsWellFormed, begin_call, write_call, finish_call, abort_call, calls, calls-IsWellFormed,
}
use pluribus.Core.Blob.Uploads.{write_chunks}
use pluribus.Core.Blob.Contents.{IsHexDigest, upload_then_read}
use pluribus.Core.Examples.{digest_of_any}

abbrev digest : List ℕ → String
digest bytes = digest_of_any

abbrev id : List ℕ
id = upload_id 1

abbrev chunks : List (List ℕ)
chunks = (1 ∷ 2 ∷ []) ∷ (3 ∷ []) ∷ []

abbrev begun : InMemoryBlobStore
begun = (begin_put (new_store 8) "text/plain" (some 3)).0

abbrev half : InMemoryBlobStore
half = (write begun id 0 (1 ∷ 2 ∷ [])).0

abbrev full : InMemoryBlobStore
full = (write_chunks begun id 0 chunks).0

abbrev finished : InMemoryBlobStore × Result BlobError BlobRef
finished = finish_put digest full id

calls-IsWellFormed_example : IsWellFormed digest (
    calls digest (new_store 8) (
      begin_call "text/plain" none
      ∷ write_call id 0 (1 ∷ [])
      ∷ write_call id 5 []
      ∷ finish_call id
      ∷ abort_call id
      ∷ []))
calls-IsWellFormed_example = calls-IsWellFormed digest 8 (
    begin_call "text/plain" none
    ∷ write_call id 0 (1 ∷ [])
    ∷ write_call id 5 []
    ∷ finish_call id
    ∷ abort_call id
    ∷ [])

begins : begin_put (new_store 8) "text/plain" (some 3) ≡ (begun, ok id)
unfolding begin_put pluribus.Core.BlobRef.validate_media_type new_store
    pluribus.Core.Blob.begin_upload
begins = refl

writes : write begun id 0 (1 ∷ 2 ∷ []) ≡ (half, ok 2)
unfolding write lookup begin_put pluribus.Core.BlobRef.validate_media_type new_store
    pluribus.Core.Blob.begin_upload pluribus.Base.insert upload_id pluribus.Base.decimal
    pluribus.Core.Blob.write_upload
writes = refl

abbrev upload : MemoryUpload
upload = record {
  media_type = "text/plain";
  expected_size = some 3;
  bytes = [];
  previous_write = none;
}

knows : lookup id begun.inner.uploads ≡ some upload
unfolding lookup begin_put pluribus.Core.BlobRef.validate_media_type new_store
    pluribus.Core.Blob.begin_upload pluribus.Base.insert upload_id pluribus.Base.decimal
knows = refl

writes_chunks : write_chunks begun id 0 chunks ≡ (full, ok 3)
unfolding write_chunks write lookup begin_put pluribus.Core.BlobRef.validate_media_type new_store
    pluribus.Core.Blob.begin_upload pluribus.Base.insert upload_id pluribus.Base.decimal
    pluribus.Core.Blob.write_upload
writes_chunks = refl

finishes : finish_put digest full id ≡ (
  finished.0,
  ok (record { algorithm = "sha256"; digest = digest_of_any; size = 3; media_type = "text/plain" }),
)
unfolding finish_put lookup write_chunks write begin_put pluribus.Core.BlobRef.validate_media_type
    new_store pluribus.Core.Blob.begin_upload pluribus.Base.insert upload_id pluribus.Base.decimal
    pluribus.Core.Blob.write_upload pluribus.Core.Blob.finish_upload
finishes = refl

is_hex : IsHexDigest digest
is_hex bytes = (refl, ground arith)

upload_then_read_example :
    read digest finished.0
      (record { algorithm = "sha256"; digest = digest_of_any; size = 3; media_type = "text/plain" })
      1
      5
    ≡ ok (record { bytes = take 5 (drop 1 (concat chunks)); eof = leb 3 (1 + 5) })
unfolding lookup new_store
upload_then_read_example =
    upload_then_read digest (new_store 8) begun full finished.0 "text/plain" (some 3) id chunks 3 1
      5
      (record { algorithm = "sha256"; digest = digest_of_any; size = 3; media_type = "text/plain" })
      is_hex tt begins writes_chunks finishes (omega arith) (omega arith)
