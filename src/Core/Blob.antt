-- ===== src/Core/Blob.antt =====
-- crates/pluribus-core/src/blob.rs: the in-memory blob store. Sizes are 64 bits, as is `usize`. The
-- lock is one call's exclusive access, so a call is one step on the state; a failed call returns
-- before it writes, except that `finish_put` removes the upload first. `sha256_hex` is the digest
-- of the sha2 crate.
pub mod Invariant
pub mod Uploads
pub mod Contents
mod Tests
use pluribus.Base.{
  ℕ, suc, ◌+◌, String, Bool, true, false, not, ◌||◌, ◌&&◌, Option, none, some, List, [], ◌∷◌, ◌++◌,
  Result, ok, err, ◌>>=◌, ◌>>◌, fail_if, ◌==◌, string_eq, list_eq, nat_eq, Assoc, lookup, insert,
  remove, length, take, drop, min, ltb, eqb, if◌then◌else◌, codes, decimal, u64_max,
}
use pluribus.Core.BlobRef.{
  BlobRef, BlobError, not_found, conflict, invalid, resource_exhausted, corrupt, storage,
  sha256_algorithm, validate_media_type, validate_blob_ref,
}
use pluribus.Core.Event.{is_some_and}

pub record BlobChunk : Type 0 where
  pub bytes : List ℕ
  pub eof : Bool

pub record MemoryUpload : Type 0 where
  pub media_type : String
  pub expected_size : Option ℕ
  pub bytes : List ℕ
  pub previous_write : Option (ℕ × List ℕ)

pub record MemoryBlobs : Type 0 where
  pub next_upload : ℕ
  pub uploads : Assoc (List ℕ) MemoryUpload
  pub blobs : Assoc String (List ℕ)

pub record InMemoryBlobStore : Type 0 where
  pub max_blob_bytes : ℕ
  pub inner : MemoryBlobs

pub new_store : ℕ → InMemoryBlobStore
new_store max_blob_bytes = record {
  max_blob_bytes = max_blob_bytes;
  inner = record { next_upload = 0; uploads = []; blobs = [] };
}

-- `format!("memory-upload-{}", inner.next_upload)`
pub upload_id : ℕ → List ℕ
upload_id n = codes "memory-upload-" ++ decimal n

abbrev with_uploads : InMemoryBlobStore → Assoc (List ℕ) MemoryUpload → InMemoryBlobStore
with_uploads s uploads = record s { inner = record s.inner { uploads = uploads } }

begin_upload : InMemoryBlobStore → String → Option ℕ → InMemoryBlobStore × Result BlobError (List ℕ)
begin_upload s media_type expected_size =
    let next_upload = s.inner.next_upload + 1 in
    let id = upload_id next_upload in
    if ltb u64_max next_upload then (s, err (storage "upload identifier exhausted")) else (
      record s {
        inner = record s.inner {
          next_upload = next_upload;
          uploads =
              insert id
                (record {
                  media_type = media_type;
                  expected_size = expected_size;
                  bytes = [];
                  previous_write = none;
                })
                s.inner.uploads;
        };
      },
      ok id,
    )

pub begin_put :
    InMemoryBlobStore → String → Option ℕ → InMemoryBlobStore × Result BlobError (List ℕ)
begin_put s media_type expected_size = elim (validate_media_type media_type) [
  | err e ↦ (s, err e)
  | ok _ ↦
      if is_some_and expected_size (λ size. ltb s.max_blob_bytes size)
      then (s, err (resource_exhausted "expected size exceeds blob limit"))
      else begin_upload s media_type expected_size
]

-- The write that the upload accepted last.
abbrev is_repeat : MemoryUpload → ℕ → List ℕ → Bool
is_repeat upload offset bytes = elim upload.previous_write [
  | none ↦ false
  | some (previous_offset, previous) ↦ eqb previous_offset offset && (previous == bytes)
]

write_upload :
    InMemoryBlobStore → List ℕ → MemoryUpload → ℕ → List ℕ → InMemoryBlobStore × Result BlobError ℕ
write_upload s id upload offset bytes =
    let current = length upload.bytes in
    let next = current + length bytes in
    if not (eqb offset current)
    then (if is_repeat upload offset bytes
        then (s, ok current)
        else (s, err (conflict current offset)))
    else if ltb u64_max next
    then (s, err (resource_exhausted "blob size exceeds u64"))
    else if ltb s.max_blob_bytes next || is_some_and upload.expected_size (λ size. ltb size next)
    then (s, err (resource_exhausted "write exceeds declared or configured blob size"))
    else (
      with_uploads s (
          insert id
            (record upload { bytes = upload.bytes ++ bytes; previous_write = some (offset, bytes) })
            s.inner.uploads),
      ok next,
    )

pub write : InMemoryBlobStore → List ℕ → ℕ → List ℕ → InMemoryBlobStore × Result BlobError ℕ
write s id offset bytes = elim (lookup id s.inner.uploads) [
  | none ↦ (s, err not_found)
  | some upload ↦ write_upload s id upload offset bytes
]

pub abort_put : InMemoryBlobStore → List ℕ → InMemoryBlobStore
abort_put s id = with_uploads s (remove id s.inner.uploads)

-- `entry(digest).or_insert(bytes)`
or_insert : String → List ℕ → Assoc String (List ℕ) → Assoc String (List ℕ)
or_insert digest bytes blobs = elim (lookup digest blobs) [
  | none ↦ insert digest bytes blobs
  | some _ ↦ blobs
]

module _ (sha256_hex : List ℕ → String) where
  finish_upload : InMemoryBlobStore → MemoryUpload → InMemoryBlobStore × Result BlobError BlobRef
  finish_upload s upload =
      let size = length upload.bytes in
      let digest = sha256_hex upload.bytes in
      if is_some_and upload.expected_size (λ expected. not (eqb expected size))
      then (s, err (invalid "expected and received sizes differ"))
      else (
        record s { inner = record s.inner { blobs = or_insert digest upload.bytes s.inner.blobs } },
        ok (record {
          algorithm = sha256_algorithm;
          digest = digest;
          size = size;
          media_type = upload.media_type;
        }),
      )

  pub finish_put : InMemoryBlobStore → List ℕ → InMemoryBlobStore × Result BlobError BlobRef
  finish_put s id = elim (lookup id s.inner.uploads) [
    | none ↦ (s, err not_found)
    | some upload ↦ finish_upload (with_uploads s (remove id s.inner.uploads)) upload
  ]

  -- The bytes stored under the reference, if they are what it names.
  stored_bytes : InMemoryBlobStore → BlobRef → Result BlobError (List ℕ)
  stored_bytes s blob = elim (lookup blob.digest s.inner.blobs) [
    | none ↦ err not_found
    | some bytes ↦
        if not (eqb (length bytes) blob.size) || not (sha256_hex bytes == blob.digest)
        then err (corrupt "reference does not match stored bytes")
        else ok bytes
  ]

  pub read : InMemoryBlobStore → BlobRef → ℕ → ℕ → Result BlobError BlobChunk
  read s blob offset max_bytes = do
    validate_blob_ref blob
    bytes ← stored_bytes s blob
    fail_if (ltb (length bytes) offset) (invalid "offset exceeds blob size")
    let end = min (min (offset + max_bytes) u64_max) (length bytes)
    ok (record { bytes = drop offset (take end bytes); eof = eqb end (length bytes) })
