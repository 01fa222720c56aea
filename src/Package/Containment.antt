-- ===== src/Package/Containment.antt =====
-- What is known of a file that was read from a package.
use pluribus.Base.{
  ℕ, ◌+◌, ◌%◌, ◌^◌, ◌≤◌, ◌≡◌, ◌≢◌, refl, sym, ap, ◌∙◌, String, false, not, List, [], ◌∷◌, ◌++◌, map,
  Result, ok, fail_if, ltb, length, take, bind_ok, fail_if_ok, arith, append_assoc, append-nil,
}
use pluribus.Package.{
  Component, root_dir, cur_dir, parent_dir, normal, Metadata, FileSystem, descend, read_bounded,
  read_package_file, validate_relative_path, too_large,
}

-- The names, one below the other, stand under the place and none of them is a symbolic link.
abbrev pub IsPlain : FileSystem → List String → List String → Type 0
IsPlain fs current [] = Unit {0}
IsPlain fs current (segment ∷ rest) =
    (metadata : Metadata) × (fs.symlink_metadata (current ++ segment ∷ []) ≡ ok metadata)
    × (metadata.is_symlink ≡ false)
    × IsPlain fs (current ++ segment ∷ []) rest

ok_injective : (a b : List String) → ◌≡◌ {A = Result String (List String)} (ok a) (ok b) → a ≡ b
ok_injective a b h = ground arith

descend_lem :
    (fs : FileSystem) (current : List String) (relative : List Component) (place : List String)
    → descend fs current relative ≡ ok place
    → (segments : List String) × (relative ≡ map normal segments)
      × (place ≡ current ++ segments)
      × IsPlain fs current segments
unfolding descend
descend_lem fs current [] place h =
    ([], refl, sym (ok_injective current place h) ∙ sym (append-nil current), tt)
descend_lem fs current (normal segment ∷ rest) place h =
    let (metadata, p, h1) = bind_ok (fs.symlink_metadata (current ++ segment ∷ [])) _ place h in
    let (u, q, h2) =
      bind_ok (fail_if metadata.is_symlink "package path contains a symlink") _ place h1 in
    let (segments, below, there, plain) = descend_lem fs (current ++ segment ∷ []) rest place h2 in
    (
      segment ∷ segments,
      ap (λ cs. normal segment ∷ cs) below,
      there ∙ append_assoc current (segment ∷ []) segments,
      (metadata, p, fail_if_ok metadata.is_symlink "package path contains a symlink" u q, plain),
    )
descend_lem fs current (root_dir ∷ rest) place h = absurd (ground arith)
descend_lem fs current (cur_dir ∷ rest) place h = absurd (ground arith)
descend_lem fs current (parent_dir ∷ rest) place h = absurd (ground arith)

not_empty :
    (relative : List Component) (segments : List String) (u : Unit {0})
    → validate_relative_path relative ≡ ok u
    → relative ≡ map normal segments
    → segments ≢ []
unfolding validate_relative_path
not_empty [] segments u h below none = absurd (ground arith)
not_empty (c ∷ cs) [] u h below none = absurd (ground arith)
not_empty (c ∷ cs) (s ∷ segments) u h below none = ground arith

read_bounded_lem :
    (file bytes : List ℕ) (max_bytes : ℕ)
    → read_bounded file max_bytes ≡ ok bytes
    → length bytes ≤ max_bytes
unfolding read_bounded
read_bounded_lem file bytes max_bytes h =
    let (u, p, h1) =
      bind_ok
        (fail_if (ltb max_bytes (length (take ((max_bytes + 1) % 2 ^ 64) file)))
          (too_large max_bytes))
        _ bytes h in
    let small =
      fail_if_ok (ltb max_bytes (length (take ((max_bytes + 1) % 2 ^ 64) file)))
        (too_large max_bytes) u p in
    let same : take ((max_bytes + 1) % 2 ^ 64) file ≡ bytes = ground arith in
    rw (sym same) (ground arith)

-- What is read of a package stands below its root: the path has names only, at least one, none of
-- the places that they lead through is a symbolic link, and there are not more bytes than allowed,
-- whatever the file holds when it is opened.
pub read_contained :
    (fs : FileSystem) (root : List String) (relative : List Component) (max_bytes : ℕ)
    (bytes : List ℕ)
    → read_package_file fs root relative max_bytes ≡ ok bytes
    → (length bytes ≤ max_bytes)
      × ((segments : List String) × (relative ≡ map normal segments)
          × (segments ≢ [])
          × IsPlain fs root segments
          × ((file : List ℕ) × (fs.file_bytes (root ++ segments) ≡ ok file)))
unfolding read_package_file validate_relative_path
read_contained fs root relative max_bytes bytes h =
    let (u, p1, h1) = bind_ok (validate_relative_path relative) _ bytes h in
    let (place, p2, h2) = bind_ok (descend fs root relative) _ bytes h1 in
    let (metadata, p3, h3) = bind_ok (fs.metadata place) _ bytes h2 in
    let (v, p4, h4) =
      bind_ok (fail_if (not metadata.is_file) "package path is not a regular file") _ bytes h3 in
    let (w, p5, h5) =
      bind_ok (fail_if (ltb max_bytes metadata.len) (too_large max_bytes)) _ bytes h4 in
    let (file, p6, h6) = bind_ok (fs.file_bytes place) _ bytes h5 in
    let (segments, below, there, plain) = descend_lem fs root relative place p2 in
    (
      read_bounded_lem file bytes max_bytes h6,
      (
        segments,
        below,
        not_empty relative segments u p1 below,
        plain,
        (file, ap fs.file_bytes (sym there) ∙ p6),
      ),
    )
