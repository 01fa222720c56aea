-- ===== src/Package/Tests.antt =====
-- Runs of the reading of a package with files of two bytes in its directories, and one link, `out`.
use pluribus.Base.{
  ℕ, ◌≤◌, ◌≡◌, ◌≢◌, refl, String, true, false, List, [], ◌∷◌, ◌++◌, map, Result, ok, err, ◌==◌,
  string_eq,
}
use pluribus.Package.{Component, normal, parent_dir, Metadata, FileSystem, read_package_file}
use pluribus.Package.Containment.{IsPlain, read_contained}

abbrev metadata_of : List String → Result String Metadata
metadata_of (_ ∷ name ∷ []) =
    ok (record { is_symlink = name == "out"; is_file = false; is_dir = true; len = 0 })
metadata_of (_ ∷ directory ∷ name ∷ []) =
    ok (record { is_symlink = false; is_file = true; is_dir = false; len = 2 })
metadata_of _ = err "no such file"

abbrev fs : FileSystem
fs = record {
  symlink_metadata = metadata_of;
  metadata = metadata_of;
  file_bytes = λ place. ok (7 ∷ 8 ∷ []);
}

abbrev tool : List Component
tool = normal "bin" ∷ normal "tool" ∷ []

reads_tool : read_package_file fs ("pkg" ∷ []) tool 2 ≡ ok (7 ∷ 8 ∷ [])
unfolding read_package_file pluribus.Package.validate_relative_path pluribus.Package.descend
    pluribus.Package.read_bounded
reads_tool = refl

refuses_link :
    read_package_file fs ("pkg" ∷ []) (normal "out" ∷ normal "tool" ∷ []) 2
    ≡ err "package path contains a symlink"
unfolding read_package_file pluribus.Package.validate_relative_path pluribus.Package.descend
refuses_link = refl

refuses_parent :
    read_package_file fs ("pkg" ∷ []) (normal "bin" ∷ parent_dir ∷ []) 2 ≡ err "unsafe package path"
unfolding read_package_file pluribus.Package.validate_relative_path
refuses_parent = refl

read_contained_example :
    (2 ≤ 2)
    × ((segments : List String) × (tool ≡ map normal segments)
        × (segments ≢ [])
        × IsPlain fs ("pkg" ∷ []) segments
        × ((file : List ℕ) × (fs.file_bytes (("pkg" ∷ []) ++ segments) ≡ ok file)))
read_contained_example = read_contained fs ("pkg" ∷ []) tool 2 (7 ∷ 8 ∷ []) reads_tool
