-- ===== src/Core/BlobRef.antt =====
-- The reference to a blob (crates/pluribus-core/src/event.rs) and its validation
-- (crates/pluribus-core/src/blob.rs).
use Prim.Native.String.{len}
use pluribus.Base.{
  ℕ, String, not, ◌||◌, Result, ok, err, ◌>>◌, fail_if, ◌==◌, string_eq, codes, is_empty, is_ascii,
  is_ascii_control, is_lower_hex, any, all, if◌then◌else◌, eqb,
}

pub record BlobRef : Type 0 where
  pub algorithm : String
  pub digest : String
  pub size : ℕ
  pub media_type : String

pub data BlobError : Type 0 where
  not_found : BlobError
  conflict : ℕ → ℕ → BlobError
  invalid : String → BlobError
  resource_exhausted : String → BlobError
  corrupt : String → BlobError
  storage : String → BlobError

abbrev pub sha256_algorithm : String
sha256_algorithm = "sha256"

unfoldable pub validate_media_type : String → Result BlobError (Unit {0})
validate_media_type media_type =
    if is_empty media_type
      || (not (all is_ascii (codes media_type)) || any is_ascii_control (codes media_type))
    then err (invalid "media type must be non-empty ASCII")
    else ok tt

-- `len` counts bytes.
unfoldable pub validate_blob_ref : BlobRef → Result BlobError (Unit {0})
validate_blob_ref blob = do
  fail_if (not (blob.algorithm == sha256_algorithm)) (invalid "unsupported digest algorithm")
  fail_if (not (eqb (len blob.digest) 64) || not (all is_lower_hex (codes blob.digest)))
      (invalid "SHA-256 digest must be 64 lowercase hexadecimal characters")
  validate_media_type blob.media_type
