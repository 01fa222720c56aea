-- ===== src/Core/Event/Validation.antt =====
-- What the validation of a proposed event and of a blob reference accepts, and which error it
-- reports otherwise.
use Prim.Native.String.{len}
use text.Mathlib.TextLemmas.{cons≢nil}
use pluribus.Base.{
  ℕ, ◌≤◌, ◌<◌, ◌≡◌, ◌≢◌, ◌↔◌, ◌⊎◌, true, false, Option, some, none, List, [], ◌∷◌, arith, All,
  Holds, ==_iff, all_iff, any, all, string_eq, String, ok, codes, is_empty, is_ascii,
  is_ascii_control, is_lower_hex,
}
use pluribus.Core.BlobRef.{BlobRef, validate_media_type, validate_blob_ref, sha256_algorithm}
use pluribus.Core.Event.{
  EventPayload, AppendRequest, canonical_json, blob, validate, validate_payload,
}

-- A code point of a media type: ASCII, and no control character.
abbrev pub IsPrintable : ℕ → Type 0
IsPrintable c = (32 ≤ c) × (c < 127)

abbrev pub IsLowerHex : ℕ → Type 0
IsLowerHex c = ((48 ≤ c) × (c ≤ 57)) ⊎ ((97 ≤ c) × (c ≤ 102))

abbrev pub NonEmpty : String → Type 0
NonEmpty s = s ≢ ""

pub record IsValidRef (b : BlobRef) : Type 0 where
  pub algorithm : b.algorithm ≡ sha256_algorithm
  pub digest_len : len b.digest ≡ 64
  pub digest_hex : All IsLowerHex (codes b.digest)
  pub media_type : NonEmpty b.media_type
  pub printable : All IsPrintable (codes b.media_type)

abbrev IsValidPayload : EventPayload → Type 0
IsValidPayload (canonical_json bytes) = Unit {0}
IsValidPayload (blob b) = IsValidRef b

pub record IsValid (r : AppendRequest) : Type 0 where
  pub stream_id : NonEmpty r.stream_id
  pub event_type : NonEmpty r.event_type
  pub payload_schema : NonEmpty r.payload_schema
  pub deduplication_key : Holds NonEmpty r.deduplication_key
  pub payload : IsValidPayload r.payload

pub is_empty_iff : (s : String) → (is_empty s ≡ true) ↔ (s ≡ "")
is_empty_iff String.[] = ground arith
is_empty_iff (String.◌∷◌ c s) = (λ p. cc, λ p. absurd (cons≢nil p))

IsPrintable-split :
    (cs : List ℕ)
    → ((all is_ascii cs ≡ true) × (any is_ascii_control cs ≡ false)) ↔ All IsPrintable cs
IsPrintable-split [] = ground arith
IsPrintable-split (c ∷ cs) = ground (arith, IsPrintable-split cs)

pub validate_media_type_iff :
    (media_type : String)
    → (validate_media_type media_type ≡ ok tt)
      ↔ (NonEmpty media_type × All IsPrintable (codes media_type))
unfolding validate_media_type
validate_media_type_iff media_type =
    ground (arith, is_empty_iff media_type, IsPrintable-split (codes media_type))

hex_iff : (c : ℕ) → (is_lower_hex c ≡ true) ↔ IsLowerHex c
hex_iff c = ground arith

-- A reference is accepted exactly when it names the SHA-256 algorithm, its digest is 64 lowercase
-- hexadecimal digits, and its media type is not empty and printable ASCII.
pub validate_blob_ref_iff : (b : BlobRef) → (validate_blob_ref b ≡ ok tt) ↔ IsValidRef b
unfolding validate_blob_ref
validate_blob_ref_iff b = ground (
  arith,
  ==_iff b.algorithm sha256_algorithm,
  all_iff is_lower_hex hex_iff (codes b.digest),
  validate_media_type_iff b.media_type,
)

payload_iff : (p : EventPayload) → (validate_payload p ≡ ok tt) ↔ IsValidPayload p
unfolding validate_payload
payload_iff (canonical_json bytes) = ground arith
payload_iff (blob b) = ground (arith, validate_blob_ref_iff b)

key_iff : (k : Option String) → (Holds (λ s. is_empty s ≡ false) k) ↔ Holds NonEmpty k
key_iff none = ground arith
key_iff (some s) = ground (arith, is_empty_iff s)

-- A request is accepted exactly when its identifiers and types are not empty, a key that it
-- carries is not empty, and a blob that it refers to has a well-formed reference.
pub validate_iff : (r : AppendRequest) → (validate r ≡ ok tt) ↔ IsValid r
unfolding validate
validate_iff r = ground (
  arith,
  is_empty_iff r.stream_id,
  is_empty_iff r.event_type,
  is_empty_iff r.payload_schema,
  key_iff r.deduplication_key,
  payload_iff r.payload,
)
