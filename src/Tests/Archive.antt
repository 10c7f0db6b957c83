-- ===== src/Tests/Archive.antt =====
-- Extractions of small archives.
use servers.Base.{
  ◌≡◌, ◌≢◌, refl, Bool, true, false, List, [], ◌∷◌, some, Text, codes, eqt, has_prefix, lookup,
  eqt_iff, is_empty, cut_prefix, join, split_byte, trim_prefix, trim_suffix, insert, one_of,
  cut_byte, length, arith,
}
use servers.Setup.Archive.{
  extract_entries, extract_entry, extract_zip_file, slashes, detect_zip_prefix,
  detect_zip_prefix_raw, detect_tar_prefix, clean, clean_parts, next_parts, rooted_path,
  extract_tar_entries, extract_tar_entry, Host, Disk, ZipEntry, TarEntry, reg, strip_auto,
  zip_prefix, stripped, join_path, extract_zip_with_options, extract_tar_gz,
}
use servers.Setup.Archive.Kept.{extract_zip_preserves}
use servers.Setup.Archive.Contained.{IsUnder, extract_zip_contained}

abbrev host : Host
host = record { makes = λ p. true; opens = λ p. true; file_hash = λ s. [] }

abbrev entry : Text → Text → ZipEntry
entry name contents = record {
  name = name;
  is_dir = false;
  size = length contents;
  opens = true;
  contents = contents;
  intact = true;
}

apart : (p q : Text) → eqt p q ≡ false → p ≢ q
apart p q h same = absurd (ground (arith, eqt_iff p q))

-- An archive with a wrapper around two files.
abbrev wrapped : List ZipEntry
wrapped =
    entry (codes "app-1/conf/a") (codes "new") ∷ entry (codes "app-1/bin/b") (codes "code") ∷ []

abbrev is_conf : Text → Bool
is_conf p = has_prefix p (codes "conf/")

abbrev disk : Disk
disk = (codes "/d/conf/a", codes "old") ∷ (codes "/etc/x", codes "host") ∷ []

extract_zip_preserves_example :
    lookup
      (codes "/d/conf/a")
      (extract_zip_with_options host is_conf strip_auto (codes "/d") wrapped disk).0
    ≡ some (codes "old")
unfolding lookup eqt has_prefix stripped trim_prefix zip_prefix slashes detect_zip_prefix one_of
    trim_suffix detect_zip_prefix_raw detect_tar_prefix cut_byte extract_zip_with_options
    extract_entries extract_entry is_empty extract_zip_file cut_prefix join split_byte insert clean
    clean_parts join_path next_parts rooted_path
extract_zip_preserves_example =
    extract_zip_preserves host is_conf strip_auto (codes "/d") (codes "/d/conf/a") (codes "old")
      wrapped disk refl
      ((λ _. refl), ((λ same. absurd (apart (codes "/d/bin/b") (codes "/d/conf/a") refl same)), tt))

not-IsUnder : ¬ IsUnder (codes "/d") (codes "/etc/x")
unfolding rooted_path clean_parts next_parts split_byte join is_empty eqt
not-IsUnder ([], h) = absurd (ground arith)
not-IsUnder (p ∷ ps, h) = absurd (ground arith)

extract_zip_contained_example :
    lookup
      (codes "/etc/x")
      (extract_zip_with_options host is_conf strip_auto (codes "/d") wrapped disk).0
    ≡ lookup (codes "/etc/x") disk
unfolding lookup eqt has_prefix stripped trim_prefix zip_prefix slashes detect_zip_prefix one_of
    trim_suffix detect_zip_prefix_raw detect_tar_prefix cut_byte extract_zip_with_options
    extract_entries extract_entry is_empty extract_zip_file cut_prefix join split_byte insert clean
    clean_parts join_path next_parts rooted_path
extract_zip_contained_example =
    extract_zip_contained host is_conf strip_auto (codes "/d") (codes "/etc/x") wrapped disk refl
      (refl, (refl, tt)) not-IsUnder

-- A name that climbs out of the directory is written where it leads.
escapes :
    lookup
      (codes "/etc/x")
      (extract_zip_with_options host is_conf strip_auto
        (codes "/d")
        (entry (codes "a") [] ∷ entry (codes "../etc/x") (codes "mine") ∷ [])
        disk).0
    ≡ some (codes "mine")
unfolding lookup eqt has_prefix stripped trim_prefix zip_prefix slashes detect_zip_prefix one_of
    trim_suffix detect_zip_prefix_raw detect_tar_prefix cut_byte extract_zip_with_options
    extract_entries extract_entry is_empty extract_zip_file cut_prefix join split_byte insert clean
    clean_parts join_path next_parts rooted_path
escapes = refl

-- A wrapper whose names have backslashes is not found.
backslashes : zip_prefix strip_auto (entry (codes "app-1\\a") [] ∷ []) ≡ []
unfolding lookup eqt has_prefix stripped trim_prefix zip_prefix slashes detect_zip_prefix one_of
    trim_suffix detect_zip_prefix_raw detect_tar_prefix cut_byte extract_zip_with_options
    extract_entries extract_entry is_empty extract_zip_file cut_prefix join split_byte insert clean
    clean_parts join_path next_parts rooted_path
backslashes = refl

abbrev tarred : TarEntry
tarred = record { name = codes "app-1/a"; kind = reg; size = 1; contents = codes "x" }

unwrapped :
    lookup (codes "/d/a") (extract_tar_gz host (codes "/d") (tarred ∷ []) []).0 ≡ some (codes "x")
unfolding lookup eqt has_prefix stripped trim_prefix zip_prefix slashes detect_zip_prefix one_of
    trim_suffix detect_zip_prefix_raw detect_tar_prefix cut_byte extract_zip_with_options
    extract_entries extract_entry is_empty extract_zip_file cut_prefix join split_byte insert clean
    clean_parts join_path next_parts rooted_path extract_tar_gz extract_tar_entries
    extract_tar_entry
unwrapped = refl
