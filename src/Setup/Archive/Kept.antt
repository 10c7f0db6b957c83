-- ===== src/Setup/Archive/Kept.antt =====
-- pkg/setup/setup.go: the files that an extraction leaves as they are.
use servers.Base.{
  ◌≡◌, refl, sym, ap, ◌∙◌, Bool, true, false, List, [], ◌∷◌, some, Text, eqt, eqt_iff, is_some,
  lookup, lookup-insert, All, All-map, subst, Bool-cases, Option-cases, inl, inr, arith,
}
use servers.Setup.Archive.{
  Host, Disk, ZipEntry, StripMode, zip_prefix, stripped, join_path, extract_zip_file, extract_entry,
  extract_entries, extract_zip_with_options,
}

module _ (host : Host) (skip : Text → Bool) (dest_dir prefix path : Text) where
  -- An entry for the path is one that is skipped, and the path has a file.
  abbrev pub Spares : ZipEntry → Disk → Type 0
  Spares f d =
      join_path dest_dir (stripped prefix f) ≡ path
      → (skip (stripped prefix f) ≡ true) × (is_some (lookup path d) ≡ true)

  extract_zip_file-other :
      (f : ZipEntry) (dest_path : Text) (d : Disk)
      → eqt dest_path path ≡ false
      → lookup path (extract_zip_file host f dest_path d).0 ≡ lookup path d
  unfolding extract_zip_file
  extract_zip_file-other f dest_path d h = ground (arith, lookup-insert dest_path path f.contents d)

  extract_entry-Spares :
      (f : ZipEntry) (d : Disk)
      → Spares f d
      → lookup path (extract_entry host skip dest_dir prefix f d).0 ≡ lookup path d
  unfolding extract_entry
  extract_entry-Spares f d h =
      let name = stripped prefix f in
      let dest_path = join_path dest_dir name in
      elim (Bool-cases (eqt dest_path path)) [
        | inl e ↦
            let same : dest_path ≡ path = (eqt_iff dest_path path).0 e in
            let (s, there) = h same in
            elim (Option-cases (lookup path d)) [
              | inl n ↦ absurd (ground arith)
              | inr (body, b) ↦
                  let found : lookup dest_path d ≡ some body = ap (λ p. lookup p d) same ∙ b in
                  ground arith
            ]
        | inr e ↦ ground (arith, extract_zip_file-other f dest_path d e)
      ]

  pub extract_entries-Spares :
      (files : List ZipEntry) (d : Disk)
      → All (λ f. Spares f d) files
      → lookup path (extract_entries host skip dest_dir prefix files d).0 ≡ lookup path d
  unfolding extract_entries
  extract_entries-Spares [] d h = refl
  extract_entries-Spares (f ∷ files) d h =
      let e = (extract_entry host skip dest_dir prefix f d).0 in
      let first : lookup path e ≡ lookup path d = extract_entry-Spares f d h.0 in
      let rest = extract_entries-Spares files e (
        All-map
          (λ g s. λ same.
            subst (λ o. (skip (stripped prefix g) ≡ true) × (is_some o ≡ true)) (sym first)
              (s same))
          files h.1) in
      ground arith

-- A file that is on the disk keeps its bytes through an extraction, whether that ends in an error or
-- not, if every entry of the archive that would be put in its place is one that is to be skipped.
pub extract_zip_preserves :
    (host : Host) (skip : Text → Bool) (strip : StripMode) (dest_dir path body : Text)
    (files : List ZipEntry) (d : Disk)
    → lookup path d ≡ some body
    → All
        (λ f.
          join_path dest_dir (stripped (zip_prefix strip files) f) ≡ path
          → skip (stripped (zip_prefix strip files) f) ≡ true)
        files
    → lookup path (extract_zip_with_options host skip strip dest_dir files d).0 ≡ some body
unfolding extract_zip_with_options
extract_zip_preserves host skip strip dest_dir path body files d h all =
    extract_entries-Spares host skip dest_dir (zip_prefix strip files) path files d
      (All-map (λ f s. λ same. (s same, ap is_some h)) files all)
    ∙ h
