-- ===== src/Core/Blob/Invariant.antt =====
-- What holds of the blob store between two calls.
use pluribus.Base.{
  ℕ, ◌+◌, ◌≤◌, ◌<◌, ◌≡◌, ◌⊎◌, String, Option, none, some, List, [], ◌∷◌, ◌++◌, arith, string_eq,
  list_eq, nat_eq, lookup, insert, remove, lookup-insert, lookup-remove, length, length-append,
  Holds, Everywhere, Everywhere-insert, Everywhere-remove, Assoc, not, eqb, refl, ==_iff,
  Option-cases, Bool-cases, inl, inr, decimal_injective, u64_max, ltb,
}
use pluribus.Core.Event.{is_some_and}
use pluribus.Core.Blob.{
  MemoryUpload, InMemoryBlobStore, new_store, upload_id, begin_put, begin_upload, write,
  write_upload, with_uploads, abort_put, finish_put, finish_upload, or_insert,
}

pub record IsBounded (max : ℕ) (u : MemoryUpload) : Type 0 where
  pub within : length u.bytes ≤ max
  pub declared : Holds (λ size. length u.bytes ≤ size) u.expected_size

abbrev extended : MemoryUpload → ℕ → List ℕ → MemoryUpload
extended u offset bytes = record u {
  bytes = u.bytes ++ bytes;
  previous_write = some (offset, bytes);
}

empty_declared : (size : Option ℕ) → Holds (λ n. 0 ≤ n) size
empty_declared none = tt
empty_declared (some n) = omega arith

module _ (sha256_hex : List ℕ → String) where
  -- Uploads stay in their bounds, a blob stands under the digest of its bytes, and identifiers
  -- above the counter are unused.
  pub record IsWellFormed (s : InMemoryBlobStore) : Type 0 where
    pub uploads : Everywhere (λ id u. IsBounded s.max_blob_bytes u) s.inner.uploads
    pub addressed : Everywhere (λ digest bytes. sha256_hex bytes ≡ digest) s.inner.blobs
    pub small : Everywhere (λ digest bytes. length bytes ≤ s.max_blob_bytes) s.inner.blobs
    pub fresh : (n : ℕ) → s.inner.next_upload < n → lookup (upload_id n) s.inner.uploads ≡ none

  pub new_store-IsWellFormed : (max : ℕ) → IsWellFormed (new_store max)
  unfolding new_store lookup
  new_store-IsWellFormed max = record {
    uploads = λ id u h. cc;
    addressed = λ d b h. cc;
    small = λ d b h. cc;
    fresh = λ n h. refl;
  }

  upload_id_injective : (m n : ℕ) → upload_id m ≡ upload_id n → m ≡ n
  unfolding upload_id
  upload_id_injective m n h = decimal_injective m n (ground arith)

  begin_upload-IsWellFormed :
      (s : InMemoryBlobStore) (media_type : String) (expected : Option ℕ)
      → IsWellFormed s
      → IsWellFormed (begin_upload s media_type expected).0
  unfolding begin_upload
  begin_upload-IsWellFormed s media_type expected w =
      elim (Bool-cases (ltb u64_max (s.inner.next_upload + 1))) [
        | inl full ↦ rw full w
        | inr room ↦ rw room (record {
          uploads =
              Everywhere-insert (λ id u. IsBounded s.max_blob_bytes u)
                (upload_id (s.inner.next_upload + 1)) _ s.inner.uploads
                (record { within = omega arith; declared = empty_declared expected }) w.uploads;
          addressed = w.addressed;
          small = w.small;
          fresh = λ n h. ground (
            arith,
            lookup-insert (upload_id (s.inner.next_upload + 1)) (upload_id n)
                (record {
                  media_type = media_type;
                  expected_size = expected;
                  bytes = [];
                  previous_write = none;
                })
                s.inner.uploads,
            w.fresh n,
            ==_iff (upload_id (s.inner.next_upload + 1)) (upload_id n),
            upload_id_injective (s.inner.next_upload + 1) n,
          );
        })
      ]

  -- To start an upload keeps the store well formed, on every branch.
  pub begin_put-IsWellFormed :
      (s : InMemoryBlobStore) (media_type : String) (expected : Option ℕ)
      → IsWellFormed s
      → IsWellFormed (begin_put s media_type expected).0
  begin_put-IsWellFormed s media_type expected w =
      unfold begin_put in ground (arith, begin_upload-IsWellFormed s media_type expected)

  -- A write that changes the store extends the upload within its bounds.
  write_upload_cases :
      (s : InMemoryBlobStore) (id : List ℕ) (u : MemoryUpload) (offset : ℕ) (bytes : List ℕ)
      → ((write_upload s id u offset bytes).0 ≡ s)
        ⊎ (((write_upload s id u offset bytes).0
              ≡ with_uploads s (insert id (extended u offset bytes) s.inner.uploads))
            × IsBounded s.max_blob_bytes (extended u offset bytes))
  unfolding write_upload
  write_upload_cases s id u offset bytes = elim (Option-cases u.expected_size) [
    | inl e ↦ ground (arith, length-append u.bytes bytes)
    | inr (size, e) ↦ ground (arith, length-append u.bytes bytes)
  ]

  inserted-IsWellFormed :
      (s : InMemoryBlobStore) (id : List ℕ) (u v : MemoryUpload)
      → lookup id s.inner.uploads ≡ some u
      → IsBounded s.max_blob_bytes v
      → IsWellFormed s
      → IsWellFormed (with_uploads s (insert id v s.inner.uploads))
  inserted-IsWellFormed s id u v known b w = record {
    uploads =
        Everywhere-insert (λ id u. IsBounded s.max_blob_bytes u) id v s.inner.uploads b w.uploads;
    addressed = w.addressed;
    small = w.small;
    fresh = λ n h. ground (
      arith,
      lookup-insert id (upload_id n) v s.inner.uploads,
      w.fresh n,
      ==_iff id (upload_id n),
    );
  }

  -- To write a chunk keeps the store well formed, on every branch.
  pub write-IsWellFormed :
      (s : InMemoryBlobStore) (id : List ℕ) (offset : ℕ) (bytes : List ℕ)
      → IsWellFormed s
      → IsWellFormed (write s id offset bytes).0
  unfolding write
  write-IsWellFormed s id offset bytes w = elim (Option-cases (lookup id s.inner.uploads)) [
    | inl e ↦ rw (e, write) w
    | inr (u, e) ↦
        rw (e, write)
          (elim (write_upload_cases s id u offset bytes) [
            | inl same ↦ rw same w
            | inr (new, b) ↦ rw new (inserted-IsWellFormed s id u (extended u offset bytes) e b w)
          ])
  ]

  removed-IsWellFormed :
      (s : InMemoryBlobStore) (id : List ℕ)
      → IsWellFormed s
      → IsWellFormed (with_uploads s (remove id s.inner.uploads))
  removed-IsWellFormed s id w = record {
    uploads = Everywhere-remove (λ id u. IsBounded s.max_blob_bytes u) id s.inner.uploads w.uploads;
    addressed = w.addressed;
    small = w.small;
    fresh = λ n h. ground (arith, lookup-remove id (upload_id n) s.inner.uploads, w.fresh n);
  }

  pub abort_put-IsWellFormed :
      (s : InMemoryBlobStore) (id : List ℕ) → IsWellFormed s → IsWellFormed (abort_put s id)
  unfolding abort_put
  abort_put-IsWellFormed s id w = removed-IsWellFormed s id w

  Everywhere-or_insert :
      (P : String → List ℕ → Type 0) (digest : String) (bytes : List ℕ)
      (blobs : Assoc String (List ℕ))
      → P digest bytes
      → Everywhere P blobs
      → Everywhere P (or_insert digest bytes blobs)
  unfolding or_insert
  Everywhere-or_insert P digest bytes blobs new old = elim (Option-cases (lookup digest blobs)) [
    | inl e ↦ rw (e, or_insert) (Everywhere-insert P digest bytes blobs new old)
    | inr (b, e) ↦ rw (e, or_insert) old
  ]

  finish_upload-IsWellFormed :
      (s : InMemoryBlobStore) (u : MemoryUpload)
      → IsBounded s.max_blob_bytes u
      → IsWellFormed s
      → IsWellFormed (finish_upload sha256_hex s u).0
  unfolding finish_upload
  finish_upload-IsWellFormed s u b w =
      elim (Bool-cases
        (is_some_and u.expected_size (λ expected. not (eqb expected (length u.bytes))))) [
          | inl mismatch ↦ rw mismatch w
          | inr fits ↦ rw fits (record {
            uploads = w.uploads;
            addressed =
                Everywhere-or_insert (λ d c. sha256_hex c ≡ d) (sha256_hex u.bytes) u.bytes
                  s.inner.blobs refl w.addressed;
            small =
                Everywhere-or_insert (λ d c. length c ≤ s.max_blob_bytes) (sha256_hex u.bytes)
                  u.bytes s.inner.blobs b.within w.small;
            fresh = w.fresh;
          })
        ]

  -- To finish an upload keeps the store well formed, on every branch.
  pub finish_put-IsWellFormed :
      (s : InMemoryBlobStore) (id : List ℕ)
      → IsWellFormed s
      → IsWellFormed (finish_put sha256_hex s id).0
  unfolding finish_put
  finish_put-IsWellFormed s id w = elim (Option-cases (lookup id s.inner.uploads)) [
    | inl e ↦ rw (e, finish_put) w
    | inr (u, e) ↦
        rw (e, finish_put)
          (finish_upload-IsWellFormed (with_uploads s (remove id s.inner.uploads)) u
            (w.uploads id u e) (removed-IsWellFormed s id w))
  ]

-- The calls of a client, in any order.
pub data Call : Type 0 where
  begin_call : String → Option ℕ → Call
  write_call : List ℕ → ℕ → List ℕ → Call
  finish_call abort_call : List ℕ → Call

module _ (sha256_hex : List ℕ → String) where
  pub call : InMemoryBlobStore → Call → InMemoryBlobStore
  call s (begin_call media_type expected) = (begin_put s media_type expected).0
  call s (write_call id offset bytes) = (write s id offset bytes).0
  call s (finish_call id) = (finish_put sha256_hex s id).0
  call s (abort_call id) = abort_put s id

  pub calls : InMemoryBlobStore → List Call → InMemoryBlobStore
  calls s [] = s
  calls s (c ∷ cs) = calls (call s c) cs

  call-IsWellFormed :
      (s : InMemoryBlobStore) (c : Call)
      → IsWellFormed sha256_hex s
      → IsWellFormed sha256_hex (call s c)
  unfolding call
  call-IsWellFormed s (begin_call m e) w = begin_put-IsWellFormed sha256_hex s m e w
  call-IsWellFormed s (write_call id o b) w = write-IsWellFormed sha256_hex s id o b w
  call-IsWellFormed s (finish_call id) w = finish_put-IsWellFormed sha256_hex s id w
  call-IsWellFormed s (abort_call id) w = abort_put-IsWellFormed sha256_hex s id w

  calls_keep :
      (s : InMemoryBlobStore) (cs : List Call)
      → IsWellFormed sha256_hex s
      → IsWellFormed sha256_hex (calls s cs)
  unfolding calls
  calls_keep s [] w = w
  calls_keep s (c ∷ cs) w = calls_keep (call s c) cs (call-IsWellFormed s c w)

  -- After any calls on a new store, failed ones included, uploads stay within the configured and
  -- declared sizes, every blob stands under the digest of its bytes and within the configured size,
  -- and identifiers above the counter are unused.
  pub calls-IsWellFormed :
      (max : ℕ) (cs : List Call) → IsWellFormed sha256_hex (calls (new_store max) cs)
  calls-IsWellFormed max cs = calls_keep (new_store max) cs (new_store-IsWellFormed sha256_hex max)
