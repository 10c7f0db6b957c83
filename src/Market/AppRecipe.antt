-- ===== src/Market/AppRecipe.antt =====
-- pkg/market/recipe_app_validate.go: the check of the `app pull` lines of a recipe.
pub mod Platforms
use servers.Base.{
  Bool, true, false, not, ◌&&◌, ◌||◌, List, [], ◌∷◌, Option, none, some, Text, codes, eqt, is_empty,
  one_of, trim_space, trim_suffix, has_prefix, contains, cut_byte, split_byte, fields, drop,
  if◌then◌else◌, Result, ok, err, ◌>>=◌, guard,
}

pub data AppError : Type 0 where
  no_platforms no_tokens not_os_arch duplicate : AppError

-- `os/arch`, both halves not empty
unfoldable pub is_os_arch : Text → Bool
is_os_arch item = elim (cut_byte b'/' item) [
  | none ↦ false
  | some (os, arch) ↦ not (is_empty os) && not (is_empty arch)
]

unfoldable pub platforms_from : List Text → List Text → Result AppError (Unit {0})
unfolding is_os_arch
platforms_from seen [] = ok tt
platforms_from seen (raw ∷ items) =
    let item = trim_space raw in
    let rest = platforms_from (if is_empty item then seen else item ∷ seen) items in
    if is_empty item
    then rest
    else if not (is_os_arch item)
    then err not_os_arch
    else if one_of item seen
    then err duplicate
    else rest

unfoldable pub validate_platform_list : Text → Result AppError (Unit {0})
unfolding platforms_from
validate_platform_list list = platforms_from [] (split_byte b',' list)

-- The url and the platforms among the words behind `app pull`.
unfoldable pub scan_words : List Text → Text → Text → Text × Text
scan_words [] url platforms = (url, platforms)
scan_words (w ∷ []) url platforms =
    if not (has_prefix w (codes "-")) && is_empty url then (w, platforms) else (url, platforms)
scan_words (w ∷ v ∷ words) url platforms = elim (eqt w (codes "--platforms")) [
  | true ↦ scan_words words url v
  | false ↦ elim (eqt w (codes "--name") || eqt w (codes "--sha256")) [
    | true ↦ scan_words words url platforms
    | false ↦
        scan_words (v ∷ words) (if not (has_prefix w (codes "-")) && is_empty url then w else url)
          platforms
  ]
]

abbrev pub has_tokens : Text → Bool
has_tokens url = contains url (codes "{os}") && contains url (codes "{arch}")

unfoldable pub check_pull : Text → Text → Result AppError (Unit {0})
unfolding validate_platform_list
check_pull url platforms =
    if has_tokens url && is_empty platforms
    then err no_platforms
    else if is_empty platforms
    then ok tt
    else if not (has_tokens url)
    then err no_tokens
    else validate_platform_list platforms

unfoldable pub check_line : Text → Result AppError (Unit {0})
unfolding scan_words check_pull
check_line raw =
    let line = trim_space (trim_suffix (trim_space raw) (codes ";")) in
    if not (has_prefix line (codes "app pull"))
    then ok tt
    else (let (url, platforms) = scan_words (drop 2 (fields line)) [] [] in
        check_pull url platforms)

unfoldable pub check_lines : List Text → Result AppError (Unit {0})
unfolding check_line
check_lines [] = ok tt
check_lines (line ∷ lines) = check_line line >>= λ _. check_lines lines

unfoldable pub validate_app_recipe : Text → Result AppError (Unit {0})
unfolding check_lines
validate_app_recipe body = check_lines (split_byte b'\n' body)
