-- ===== src/Setup/Archive.antt =====
-- pkg/setup/setup.go: the extraction of zip and tar.gz archives. A disk is a map from the paths of
-- files to their bytes; directories, modes and times are left out. The archive readers are outside: an
-- entry has the bytes that its reader gives, and whether it gives them to the end.
use servers.Base.{
  ℕ, Bool, true, false, not, ◌&&◌, ◌||◌, List, [], ◌∷◌, ◌++◌, map, reverse, Option, none, some,
  Text, codes, eqt, is_empty, one_of, has_prefix, trim_prefix, trim_suffix, cut_byte, split_byte,
  join, length, Map, lookup, insert, ◌==◌, if◌then◌else◌, Result, ok, err,
}
pub mod Kept
pub mod Contained

pub data StripMode : Type 0 where
  strip_auto strip_none strip_force : StripMode

pub record ExtractedFile : Type 0 where
  pub path : Text
  pub size : ℕ
  pub hash : Text

-- `opens` says whether `f.Open` succeeds, `intact` whether the copy ends without an error.
pub record ZipEntry : Type 0 where
  pub name : Text
  pub is_dir : Bool
  pub size : ℕ
  pub opens : Bool
  pub contents : Text
  pub intact : Bool

pub data TarKind : Type 0 where
  dir reg other : TarKind

pub record TarEntry : Type 0 where
  pub name : Text
  pub kind : TarKind
  pub size : ℕ
  pub contents : Text

-- Whether the directory of a file can be made, and the file opened for writing.
pub record Host : Type 0 where
  pub makes : Text → Bool
  pub opens : Text → Bool
  pub file_hash : Text → Text

pub data ArchiveError : Type 0 where
  no_dir no_entry no_file broken : ArchiveError

abbrev pub Disk : Type 0
Disk = Map Text

-- `strings.ReplaceAll(s, "\\", "/")`
unfoldable pub slashes : Text → Text
slashes = map (λ c. if c == b'\\' then b'/' else c)

abbrev pub all_prefixed : Text → List Text → Bool
all_prefixed prefix [] = true
all_prefixed prefix (n ∷ names) = has_prefix n prefix && all_prefixed prefix names

unfoldable pub detect_tar_prefix : List Text → Text
detect_tar_prefix [] = []
detect_tar_prefix (first ∷ names) = elim (cut_byte b'/' first) [
  | none ↦ []
  | some (top, _) ↦
      let prefix = top ++ codes "/" in if all_prefixed prefix (first ∷ names) then prefix else []
]

-- The same, of the entries of a zip.
unfoldable pub detect_zip_prefix_raw : List ZipEntry → Text
detect_zip_prefix_raw files = detect_tar_prefix (map (λ f. f.name) files)

abbrev pub layout_dirs : List Text
layout_dirs = map codes (
    "packages" ∷ "bin" ∷ "conf" ∷ "lib" ∷ "ai" ∷ "models" ∷ "manifests" ∷ "keystores" ∷ "logs"
    ∷ "certs" ∷ "src" ∷ "docs" ∷ [])

unfoldable pub detect_zip_prefix : List ZipEntry → Text
detect_zip_prefix files =
    let prefix = detect_zip_prefix_raw files in
    if one_of (trim_suffix prefix (codes "/")) layout_dirs then [] else prefix

unfoldable pub zip_prefix : StripMode → List ZipEntry → Text
zip_prefix strip_none files = []
zip_prefix strip_force files = slashes (detect_zip_prefix_raw files)
zip_prefix strip_auto files = slashes (detect_zip_prefix files)

-- The parts of a path so far, in reverse, and one more: an empty one and `.` are left out, and `..`
-- takes off the part in front of it.
unfoldable pub next_parts : Bool → List Text → Text → List Text
next_parts rooted done p =
    if is_empty p || eqt p (codes ".")
    then done
    else if not (eqt p (codes ".."))
    then p ∷ done
    else elim done [
      | [] ↦ if rooted then [] else p ∷ []
      | q ∷ rest ↦ if eqt q (codes "..") then p ∷ q ∷ rest else rest
    ]

unfoldable pub clean_parts : Bool → List Text → List Text → List Text
clean_parts rooted done [] = reverse done
clean_parts rooted done (p ∷ ps) = clean_parts rooted (next_parts rooted done p) ps

unfoldable pub rooted_path : List Text → Text
rooted_path parts = codes "/" ++ join (codes "/") parts

-- `filepath.Clean` on a system whose separator is the slash
unfoldable pub clean : Text → Text
clean p =
    if has_prefix p (codes "/")
    then rooted_path (clean_parts true [] (split_byte b'/' p))
    else let body = join (codes "/") (clean_parts false [] (split_byte b'/' p)) in
      if is_empty body then codes "." else body

-- `filepath.Join` of two elements
unfoldable pub join_path : Text → Text → Text
join_path base name =
    if not (is_empty base)
    then clean (base ++ (b'/' ∷ name))
    else if not (is_empty name)
    then clean name
    else []

-- `extractZipFile`
unfoldable pub extract_zip_file :
    Host → ZipEntry → Text → Disk → Disk × Result ArchiveError (Unit {0})
extract_zip_file host f dest_path d =
    if not f.opens
    then (d, err no_entry)
    else if not (host.opens dest_path)
    then (d, err no_file)
    else (insert dest_path f.contents d, if f.intact then ok tt else err broken)

unfoldable pub stripped : Text → ZipEntry → Text
stripped prefix f = trim_prefix (slashes f.name) prefix

-- One round of the loop; an entry that names the wrapper itself, or a directory, gives no file.
unfoldable pub extract_entry :
    Host
    → (Text → Bool)
    → Text
    → Text
    → ZipEntry
    → Disk
    → Disk × Result ArchiveError (List ExtractedFile)
extract_entry host skip dest_dir prefix f d =
    let name = stripped prefix f in
    let dest_path = join_path dest_dir name in
    let kept = if skip name then lookup dest_path d else none in
    if not (is_empty prefix) && is_empty name
    then (d, ok [])
    else if f.is_dir || has_prefix (reverse name) (codes "/")
    then (d, ok [])
    else elim kept [
      | some body ↦
          (d, ok (record { path = name; size = length body; hash = host.file_hash body } ∷ []))
      | none ↦
          if not (host.makes dest_path)
          then (d, err no_dir)
          else let (e, written) = extract_zip_file host f dest_path d in
            elim written [
              | err x ↦ (e, err x)
              | ok _ ↦ (
                e,
                ok (
                    record {
                      path = if is_empty name then [] else clean name;
                      size = f.size;
                      hash = host.file_hash f.contents;
                    }
                    ∷ []),
              )
            ]
    ]

unfoldable pub extract_entries :
    Host
    → (Text → Bool)
    → Text
    → Text
    → List ZipEntry
    → Disk
    → Disk × Result ArchiveError (List ExtractedFile)
extract_entries host skip dest_dir prefix [] d = (d, ok [])
extract_entries host skip dest_dir prefix (f ∷ files) d =
    let (e, first) = extract_entry host skip dest_dir prefix f d in
    let (g, rest) = extract_entries host skip dest_dir prefix files e in
    elim first [
      | err x ↦ (e, err x)
      | ok one ↦ elim rest [ err x ↦ (g, err x) | ok more ↦ (g, ok (one ++ more)) ]
    ]

-- `ExtractZipWithOptions` of an archive that opens; without a skip function, nothing is skipped.
unfoldable pub extract_zip_with_options :
    Host
    → (Text → Bool)
    → StripMode
    → Text
    → List ZipEntry
    → Disk
    → Disk × Result ArchiveError (List ExtractedFile)
extract_zip_with_options host skip strip dest_dir files =
    extract_entries host skip dest_dir (zip_prefix strip files) files

unfoldable pub extract_tar_entry :
    Host → Text → Text → TarEntry → Disk → Disk × Result ArchiveError (List ExtractedFile)
extract_tar_entry host dest_dir prefix f d =
    let name = trim_prefix f.name prefix in
    let dest_path = join_path dest_dir name in
    if not (is_empty prefix) && is_empty name then (d, ok []) else elim f.kind [
      | dir ↦ (d, ok [])
      | other ↦ (d, ok [])
      | reg ↦
          if not (host.makes dest_path)
          then (d, err no_dir)
          else if not (host.opens dest_path)
          then (d, err no_file)
          else (
            insert dest_path f.contents d,
            ok (record { path = name; size = f.size; hash = host.file_hash f.contents } ∷ []),
          )
    ]

unfoldable pub extract_tar_entries :
    Host → Text → Text → List TarEntry → Disk → Disk × Result ArchiveError (List ExtractedFile)
extract_tar_entries host dest_dir prefix [] d = (d, ok [])
extract_tar_entries host dest_dir prefix (f ∷ files) d =
    let (e, first) = extract_tar_entry host dest_dir prefix f d in
    let (g, rest) = extract_tar_entries host dest_dir prefix files e in
    elim first [
      | err x ↦ (e, err x)
      | ok one ↦ elim rest [ err x ↦ (g, err x) | ok more ↦ (g, ok (one ++ more)) ]
    ]

-- `ExtractTarGz` of an archive that can be read to its end
unfoldable pub extract_tar_gz :
    Host → Text → List TarEntry → Disk → Disk × Result ArchiveError (List ExtractedFile)
extract_tar_gz host dest_dir files =
    extract_tar_entries host dest_dir (detect_tar_prefix (map (λ f. f.name) files)) files
