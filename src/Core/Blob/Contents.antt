-- ===== src/Core/Blob/Contents.antt =====
-- What is uploaded is what is read.
use pluribus.Base.{
  ℕ, ◌+◌, ◌≤◌, ◌≡◌, refl, String, Option, none, some, List, [], ok, arith, string_eq, list_eq,
  nat_eq, lookup, lookup-insert, length, take, drop, min, drop-take-min, concat, Holds, ==_refl,
  codes, leb, u64_max, All,
}
use Prim.Native.String.{len}
use pluribus.Core.BlobRef.{BlobRef, validate_media_type, sha256_algorithm}
use pluribus.Core.Event.Validation.{IsLowerHex, validate_blob_ref_iff, validate_media_type_iff}
use pluribus.Core.Blob.{
  MemoryUpload, InMemoryBlobStore, begin_put, begin_upload, finish_put, finish_upload, or_insert,
  read, stored_bytes,
}
use pluribus.Core.Blob.Uploads.{write_chunks, write_chunks_lem}

module _ (sha256_hex : List ℕ → String) where
  -- What the store holds under the digest of the bytes is the bytes, or nothing yet.
  abbrev pub NoCollision : List ℕ → InMemoryBlobStore → Type 0
  NoCollision bytes s = Holds (λ stored. stored ≡ bytes) (lookup (sha256_hex bytes) s.inner.blobs)

  begin_ok :
      (s t : InMemoryBlobStore) (media_type : String) (expected : Option ℕ) (id : List ℕ)
      → begin_put s media_type expected ≡ (t, ok id)
      → (validate_media_type media_type ≡ ok tt)
        × (lookup id t.inner.uploads
            ≡ some (record {
              media_type = media_type;
              expected_size = expected;
              bytes = [];
              previous_write = none;
            }))
        × (t.inner.blobs ≡ s.inner.blobs)
  unfolding begin_put begin_upload
  begin_ok s t media_type expected id h = ground (
    arith,
    lookup-insert id id
        (record {
          media_type = media_type;
          expected_size = expected;
          bytes = [];
          previous_write = none;
        })
        s.inner.uploads,
    ==_refl id,
  )

  finish_ok :
      (s t : InMemoryBlobStore) (id : List ℕ) (u : MemoryUpload) (blob : BlobRef)
      → lookup id s.inner.uploads ≡ some u
      → finish_put sha256_hex s id ≡ (t, ok blob)
      → NoCollision u.bytes s
      → (blob ≡ record {
        algorithm = sha256_algorithm;
        digest = sha256_hex u.bytes;
        size = length u.bytes;
        media_type = u.media_type;
      })
        × (lookup (sha256_hex u.bytes) t.inner.blobs ≡ some u.bytes)
  unfolding finish_put finish_upload or_insert
  finish_ok s t id u blob known h fresh = ground (
    arith,
    lookup-insert (sha256_hex u.bytes) (sha256_hex u.bytes) u.bytes s.inner.blobs,
    ==_refl (sha256_hex u.bytes),
  )

  -- The digest of any bytes is written as 64 lowercase hexadecimal digits.
  abbrev pub IsHexDigest : Type 0
  IsHexDigest =
      (bytes : List ℕ) → (len (sha256_hex bytes) ≡ 64) × All IsLowerHex (codes (sha256_hex bytes))

  read_ok :
      (s : InMemoryBlobStore) (media_type : String) (bytes : List ℕ) (offset max_bytes : ℕ)
      → IsHexDigest
      → validate_media_type media_type ≡ ok tt
      → lookup (sha256_hex bytes) s.inner.blobs ≡ some bytes
      → offset ≤ length bytes
      → offset + max_bytes ≤ u64_max
      → read sha256_hex s
          (record {
            algorithm = sha256_algorithm;
            digest = sha256_hex bytes;
            size = length bytes;
            media_type = media_type;
          })
          offset
          max_bytes
        ≡ ok (record {
          bytes = take max_bytes (drop offset bytes);
          eof = leb (length bytes) (offset + max_bytes);
        })
  unfolding read stored_bytes
  read_ok s media_type bytes offset max_bytes hex valid stored within bounded =
      let blob : BlobRef = record {
        algorithm = sha256_algorithm;
        digest = sha256_hex bytes;
        size = length bytes;
        media_type = media_type;
      } in
      let checked = (validate_blob_ref_iff blob).1 (record {
        algorithm = refl;
        digest_len = (hex bytes).0;
        digest_hex = (hex bytes).1;
        media_type = ((validate_media_type_iff media_type).0 valid).0;
        printable = ((validate_media_type_iff media_type).0 valid).1;
      }) in
      let whole : min (min (offset + max_bytes) u64_max) (length bytes)
          ≡ min (offset + max_bytes) (length bytes) =
        omega arith in
      rw (checked, stored, read, stored_bytes)
        (ground (arith, whole, drop-take-min offset max_bytes bytes, ==_refl (sha256_hex bytes)))

  -- An upload that is begun, filled chunk after chunk and finished can be read from every offset
  -- in it, where the end of the read fits 64 bits: the read returns the bytes of the chunks from
  -- there on, as many as were asked for, and the end mark exactly when nothing follows. Digests
  -- are hexadecimal, and the store holds no other bytes under the digest of these.
  pub upload_then_read :
      (s s₀ s₁ s₂ : InMemoryBlobStore) (media_type : String) (expected : Option ℕ) (id : List ℕ)
      (chunks : List (List ℕ)) (n offset max_bytes : ℕ) (blob : BlobRef)
      → IsHexDigest
      → NoCollision (concat chunks) s
      → begin_put s media_type expected ≡ (s₀, ok id)
      → write_chunks s₀ id 0 chunks ≡ (s₁, ok n)
      → finish_put sha256_hex s₁ id ≡ (s₂, ok blob)
      → offset ≤ n
      → offset + max_bytes ≤ u64_max
      → read sha256_hex s₂ blob offset max_bytes
        ≡ ok (record {
          bytes = take max_bytes (drop offset (concat chunks));
          eof = leb n (offset + max_bytes);
        })
  upload_then_read s s₀ s₁ s₂ media_type expected id chunks n offset max_bytes blob hex fresh begun
        written finished within bounded =
      let (valid, known, same) = begin_ok s s₀ media_type expected id begun in
      let u : MemoryUpload = record {
        media_type = media_type;
        expected_size = expected;
        bytes = [];
        previous_write = none;
      } in
      let (e, total) = write_chunks_lem chunks s₀ s₁ id u n known written in
      let no_clash : NoCollision e.upload.bytes s₁ = rw (e.bytes, e.blobs, same) fresh in
      let (named, stored) = finish_ok s₁ s₂ id e.upload blob e.known finished no_clash in
      rw (named, e.bytes, e.media_type, total)
        (read_ok s₂ media_type (concat chunks) offset max_bytes hex valid (rw e.bytes at stored)
          (rw total at within) bounded)
