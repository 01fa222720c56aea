-- ===== src/Package.antt =====
-- crates/pluribus-plugin-package/src/path.rs: how a file of a package is read. A path is its
-- components, as `Path::components` gives them on Unix; the file system is a parameter.
pub mod Containment
mod Tests
use Prim.Native.String.{◌++◌ as joined}
use pluribus.Base.{
  ℕ, ◌+◌, ◌%◌, ◌^◌, String, Bool, true, false, not, ◌||◌, List, [], ◌∷◌, ◌++◌, Result, ok, err,
  ◌>>=◌, ◌>>◌, fail_if, any, ltb, length, take, decimal_text,
}

-- `std::path::Component`
pub data Component : Type 0 where
  root_dir : Component
  cur_dir : Component
  parent_dir : Component
  normal : String → Component

pub record Metadata : Type 0 where
  pub is_symlink : Bool
  pub is_file : Bool
  pub is_dir : Bool
  pub len : ℕ

-- `symlink_metadata`, which does not follow a link, `metadata`, which does, and the bytes of the
-- file that is opened, which may have changed since. A place is the names below the file system's
-- root.
pub record FileSystem : Type 0 where
  pub symlink_metadata : List String → Result String Metadata
  pub metadata : List String → Result String Metadata
  pub file_bytes : List String → Result String (List ℕ)

unfoldable pub validate_package_root : FileSystem → List String → Result String (Unit {0})
validate_package_root fs root = do
  metadata ← fs.symlink_metadata root
  fail_if (metadata.is_symlink || not metadata.is_dir)
      "package root must be a directory, not a symlink"

abbrev pub is_normal : Component → Bool
is_normal (normal segment) = true
is_normal _ = false

abbrev pub is_empty : List Component → Bool
is_empty [] = true
is_empty (c ∷ cs) = false

abbrev pub is_absolute : List Component → Bool
is_absolute (root_dir ∷ cs) = true
is_absolute _ = false

unfoldable pub validate_relative_path : List Component → Result String (Unit {0})
validate_relative_path path =
    fail_if (is_empty path || is_absolute path || any (λ part. not (is_normal part)) path)
      "unsafe package path"

-- The loop over the components: the place that they lead to.
unfoldable pub descend : FileSystem → List String → List Component → Result String (List String)
descend fs current [] = ok current
descend fs current (normal segment ∷ rest) =
    fs.symlink_metadata (current ++ segment ∷ []) >>= λ metadata.
    fail_if metadata.is_symlink "package path contains a symlink"
    >> descend fs (current ++ segment ∷ []) rest
descend fs current (_ ∷ rest) = err "unsafe package path"

abbrev pub too_large : ℕ → String
too_large max_bytes = joined "package file exceeds " (joined (decimal_text max_bytes) " bytes")

-- `file.take(max_bytes + 1)` is all that is read; the sum wraps, as in a release build.
unfoldable pub read_bounded : List ℕ → ℕ → Result String (List ℕ)
read_bounded file max_bytes =
    let bytes = take ((max_bytes + 1) % 2 ^ 64) file in
    fail_if (ltb max_bytes (length bytes)) (too_large max_bytes) >> ok bytes

unfoldable pub read_package_file :
    FileSystem → List String → List Component → ℕ → Result String (List ℕ)
read_package_file fs root relative max_bytes = do
  validate_relative_path relative
  current ← descend fs root relative
  metadata ← fs.metadata current
  fail_if (not metadata.is_file) "package path is not a regular file"
  fail_if (ltb max_bytes metadata.len) (too_large max_bytes)
  file ← fs.file_bytes current
  read_bounded file max_bytes
