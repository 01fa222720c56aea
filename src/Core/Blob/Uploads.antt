-- ===== src/Core/Blob/Uploads.antt =====
-- How an upload grows: a chunk that is sent again changes nothing, and the chunks follow one
-- another.
use mathlib.Core.Path.{subst}
use pluribus.Base.{
  ℕ, ◌+◌, ◌≡◌, sym, ◌∙◌, ◌⊎◌, ◌≢◌, ap, refl, some, List, [], ◌∷◌, ◌++◌, Result, ok, err, true,
  arith, string_eq, list_eq, nat_eq, lookup, insert, lookup-insert, insert-insert, length,
  length-append, append-nil, append_assoc, concat, ==_refl, Option-cases, Result-cases, inl, inr,
}
use pluribus.Core.BlobRef.{BlobError}
use pluribus.Core.Blob.{
  MemoryUpload, InMemoryBlobStore, write, write_upload, is_repeat, with_uploads,
}

-- What an accepted write does: it repeats the last one, or it extends the upload at its end.
write_upload_ok :
    (s t : InMemoryBlobStore) (id : List ℕ) (u : MemoryUpload) (offset n : ℕ) (bytes : List ℕ)
    → write_upload s id u offset bytes ≡ (t, ok n)
    → ((t ≡ s)
        × (n ≡ length u.bytes)
        × (is_repeat u offset bytes ≡ true)
        × (offset ≢ length u.bytes))
      ⊎ ((t
            ≡ with_uploads s (
                insert id
                  (record u { bytes = u.bytes ++ bytes; previous_write = some (offset, bytes) })
                  s.inner.uploads))
          × (n ≡ length u.bytes + length bytes)
          × (offset ≡ length u.bytes))
unfolding write_upload
write_upload_ok s t id u offset n bytes h = ground arith

abbrev grown : MemoryUpload → ℕ → List ℕ → MemoryUpload
grown u offset bytes = record u { bytes = u.bytes ++ bytes; previous_write = some (offset, bytes) }

grown_nil :
    (u : MemoryUpload) (offset : ℕ) → grown (grown u offset []) offset [] ≡ grown u offset []
grown_nil u offset =
    ap (λ b. record u { bytes = b; previous_write = some (offset, []) })
      (append-nil (u.bytes ++ []))

-- The write that was just accepted, once more on the new state.
repeat_grown :
    (s t : InMemoryBlobStore) (id : List ℕ) (u : MemoryUpload) (offset n : ℕ) (bytes : List ℕ)
    → t ≡ with_uploads s (insert id (grown u offset bytes) s.inner.uploads)
    → write_upload s id u offset bytes ≡ (t, ok n)
    → n ≡ length u.bytes + length bytes
    → offset ≡ length u.bytes
    → write_upload t id (grown u offset bytes) offset bytes ≡ (t, ok n)
unfolding write_upload
repeat_grown s t id u offset n [] e h m o = ground (
  arith,
  append-nil u.bytes,
  grown_nil u offset,
  insert-insert id (grown u offset []) (grown u offset []) s.inner.uploads,
)
repeat_grown s t id u offset n (b ∷ bs) e h m o =
    ground (arith, length-append u.bytes (b ∷ bs), ==_refl (b ∷ bs))

-- A client that did not see the answer may send the chunk again: it gets the same answer, and the
-- store is as the first write left it.
pub write_repeat :
    (s t : InMemoryBlobStore) (id : List ℕ) (offset n : ℕ) (bytes : List ℕ)
    → write s id offset bytes ≡ (t, ok n)
    → write t id offset bytes ≡ (t, ok n)
unfolding write
write_repeat s t id offset n bytes h = elim (Option-cases (lookup id s.inner.uploads)) [
  | inl e ↦ ground arith
  | inr (u, e) ↦
      let accepted : write_upload s id u offset bytes ≡ (t, ok n) = ground arith in
      elim (write_upload_ok s t id u offset n bytes accepted) [
        | inl same ↦ subst (λ x. write x id offset bytes ≡ (t, ok n)) (sym same.0) h
        | inr new ↦ ground (
          arith,
          repeat_grown s t id u offset n bytes new.0 accepted new.1 new.2,
          lookup-insert id id (grown u offset bytes) s.inner.uploads,
          ==_refl id,
        )
      ]
]

-- Chunks sent one after another, each at the offset that the last write returned.
unfoldable pub write_chunks :
    InMemoryBlobStore → List ℕ → ℕ → List (List ℕ) → InMemoryBlobStore × Result BlobError ℕ
write_chunks s id offset [] = (s, ok offset)
write_chunks s id offset (c ∷ cs) =
    let (t, answer) = write s id offset c in
    elim answer [ err e ↦ (t, err e) | ok next ↦ write_chunks t id next cs ]

-- An accepted write at the end of an upload extends that upload alone.
write_ok :
    (s t : InMemoryBlobStore) (id : List ℕ) (u : MemoryUpload) (n : ℕ) (bytes : List ℕ)
    → lookup id s.inner.uploads ≡ some u
    → write s id (length u.bytes) bytes ≡ (t, ok n)
    → (t ≡ with_uploads s (insert id (grown u (length u.bytes) bytes) s.inner.uploads))
      × (lookup id t.inner.uploads ≡ some (grown u (length u.bytes) bytes))
      × (n ≡ length (u.bytes ++ bytes))
unfolding write
write_ok s t id u n bytes known h =
    elim (write_upload_ok s t id u (length u.bytes) n bytes (ground arith)) [
      | inl same ↦ absurd (same.3 refl)
      | inr new ↦ (
        new.0,
        ground (
          arith,
          lookup-insert id id (grown u (length u.bytes) bytes) s.inner.uploads,
          ==_refl id,
        ),
        ground (arith, length-append u.bytes bytes),
      )
    ]

-- The upload at the end of a run, against the one at its start.
pub record IsExtended (s t : InMemoryBlobStore) (id : List ℕ) (u : MemoryUpload) (content : List ℕ)
    : Type 0 where
  pub upload : MemoryUpload
  pub known : lookup id t.inner.uploads ≡ some upload
  pub bytes : upload.bytes ≡ u.bytes ++ content
  pub media_type : upload.media_type ≡ u.media_type
  pub expected_size : upload.expected_size ≡ u.expected_size
  pub blobs : t.inner.blobs ≡ s.inner.blobs
  pub max : t.max_blob_bytes ≡ s.max_blob_bytes

-- Chunks accepted from the end of an upload on are appended to it, in order, the last answer is the
-- length of the whole, and blobs and limits stay.
pub write_chunks_lem :
    (cs : List (List ℕ)) (s t : InMemoryBlobStore) (id : List ℕ) (u : MemoryUpload) (n : ℕ)
    → lookup id s.inner.uploads ≡ some u
    → write_chunks s id (length u.bytes) cs ≡ (t, ok n)
    → IsExtended s t id u (concat cs) × (n ≡ length (u.bytes ++ concat cs))
unfolding write_chunks
write_chunks_lem [] s t id u n known h = (
  record {
    upload = u;
    known = ground arith;
    bytes = sym (append-nil u.bytes);
    media_type = refl;
    expected_size = refl;
    blobs = ground arith;
    max = ground arith;
  },
  ground (arith, append-nil u.bytes),
)
write_chunks_lem (c ∷ cs) s t id u n known h =
    elim (Result-cases (write s id (length u.bytes) c).1) [
      | inr (x, e) ↦ ground arith
      | inl (next, e) ↦
          let m = (write s id (length u.bytes) c).0 in
          let one = write_ok s m id u next c known (ground arith) in
          let (rest, total) =
            write_chunks_lem cs m t id (grown u (length u.bytes) c) n one.1
              (ground (arith, one.2)) in
          (
            record {
              upload = rest.upload;
              known = rest.known;
              bytes = rest.bytes ∙ append_assoc u.bytes c (concat cs);
              media_type = rest.media_type;
              expected_size = rest.expected_size;
              blobs = rest.blobs ∙ ap (λ (x : InMemoryBlobStore). x.inner.blobs) one.0;
              max = rest.max ∙ ap (λ (x : InMemoryBlobStore). x.max_blob_bytes) one.0;
            },
            total ∙ ap length (append_assoc u.bytes c (concat cs)),
          )
    ]
