-- ===== src/Setup/Archive/Contained.antt =====
-- pkg/setup/setup.go: where an extraction puts its files.
use servers.Base.{
  ℕ, ◌≡◌, refl, sym, ap, ◌∙◌, subst, Bool, true, false, ◌||◌, List, [], ◌∷◌, ◌++◌, append-nil,
  append_assoc, reverse, Text, codes, eqt, is_empty, any, has_prefix, cut_prefix, split_byte,
  lookup, All, All-map, Bool-cases, inl, inr, ◌==◌, arith,
}
use mathlib.Core.List.{reverse-cons, reverse-reverse}
use servers.Setup.Archive.{
  Host, Disk, ZipEntry, StripMode, zip_prefix, stripped, next_parts, clean_parts, rooted_path,
  clean, join_path, extract_zip_with_options,
}
use servers.Setup.Archive.Kept.{extract_entries-Spares}

split_byte-cons : (b : ℕ) (s : Text) → (p : Text) × (ps : List Text) × (split_byte b s ≡ p ∷ ps)
unfolding split_byte
split_byte-cons b [] = ([], [], refl)
split_byte-cons b (c ∷ s) =
    let (p, ps, h) = split_byte-cons b s in
    elim (Bool-cases (c == b)) [
      | inl e ↦ ([], split_byte b s, rw (split_byte, e) refl)
      | inr e ↦ (c ∷ p, ps, rw (split_byte, e, h) refl)
    ]

split_byte-append :
    (b : ℕ) (s t : Text) → split_byte b (s ++ (b ∷ t)) ≡ split_byte b s ++ split_byte b t
unfolding split_byte
split_byte-append b [] t = ground arith
split_byte-append b (c ∷ s) t =
    let (p, ps, h) = split_byte-cons b s in ground (arith, split_byte-append b s t)

clean_parts-append :
    (done xs ys : List Text)
    → clean_parts true done (xs ++ ys) ≡ clean_parts true (reverse (clean_parts true done xs)) ys
unfolding clean_parts
clean_parts-append done [] ys = ap (λ d. clean_parts true d ys) (sym (reverse-reverse done))
clean_parts-append done (x ∷ xs) ys = clean_parts-append (next_parts true done x) xs ys

abbrev pub is_up : Text → Bool
is_up p = eqt p (codes "..")

clean_parts-any :
    (done ys : List Text)
    → any is_up ys ≡ false
    → (parts : List Text) × (clean_parts true done ys ≡ reverse done ++ parts)
unfolding clean_parts next_parts
clean_parts-any done [] h = ([], sym (append-nil (reverse done)))
clean_parts-any done (y ∷ ys) h = elim (Bool-cases (is_empty y || eqt y (codes "."))) [
  | inl e ↦ let (parts, p) = clean_parts-any done ys (ground arith) in (parts, rw (next_parts, e) p)
  | inr e ↦
      let (parts, p) = clean_parts-any (y ∷ done) ys (ground arith) in
      let down : is_up y ≡ false = ground arith in
      (
        y ∷ parts,
        rw (next_parts, e, down)
            (p
              ∙ ap (λ r. r ++ parts) (reverse-cons y done)
              ∙ append_assoc (reverse done) (y ∷ []) parts),
      )
]

-- The path is that of the directory, or lies below it.
abbrev pub IsUnder : Text → Text → Type 0
IsUnder dest_dir path =
    (parts : List Text) × (path
      ≡ rooted_path (clean_parts true [] (split_byte b'/' dest_dir) ++ parts))

clean-rooted :
    (p : Text)
    → has_prefix p (codes "/") ≡ true
    → clean p ≡ rooted_path (clean_parts true [] (split_byte b'/' p))
unfolding clean
clean-rooted p h = rw (clean, h) refl

join_path-IsUnder :
    (dest_dir name : Text)
    → has_prefix dest_dir (codes "/") ≡ true
    → any is_up (split_byte b'/' name) ≡ false
    → IsUnder dest_dir (join_path dest_dir name)
unfolding join_path has_prefix cut_prefix is_empty
join_path-IsUnder [] name h plain = absurd (ground arith)
join_path-IsUnder (c ∷ s) name h plain =
    let base = clean_parts true [] (split_byte b'/' (c ∷ s)) in
    let (parts, p) = clean_parts-any (reverse base) (split_byte b'/' name) plain in
    (
      parts,
      clean-rooted ((c ∷ s) ++ (b'/' ∷ name)) (ground arith)
          ∙ ap rooted_path (
              ap (clean_parts true []) (split_byte-append b'/' (c ∷ s) name)
              ∙ clean_parts-append [] (split_byte b'/' (c ∷ s)) (split_byte b'/' name)
              ∙ p
              ∙ ap (λ r. r ++ parts) (reverse-reverse base)),
    )

-- If an archive is extracted below an absolute directory, and no name in it has `..` as a part behind
-- the wrapper that is stripped, then nothing changes outside of that directory: a path that does not
-- lie below it has the file that it had, or none as before.
pub extract_zip_contained :
    (host : Host) (skip : Text → Bool) (strip : StripMode) (dest_dir path : Text)
    (files : List ZipEntry) (d : Disk)
    → has_prefix dest_dir (codes "/") ≡ true
    → All (λ f. any is_up (split_byte b'/' (stripped (zip_prefix strip files) f)) ≡ false) files
    → ¬ IsUnder dest_dir path
    → lookup path (extract_zip_with_options host skip strip dest_dir files d).0 ≡ lookup path d
unfolding extract_zip_with_options
extract_zip_contained host skip strip dest_dir path files d root plain out =
    let prefix = zip_prefix strip files in
    extract_entries-Spares host skip dest_dir prefix path files d (
      All-map
        (λ f p. λ same. absurd (
          out (
            subst (IsUnder dest_dir) same (join_path-IsUnder dest_dir (stripped prefix f) root p))))
        files plain)
