-- ===== src/Recipe/Header.antt =====
-- pkg/recipe/parser.go: the head of a recipe (the pragma, the doc lines and the `requires:` block), and
-- `parseFile`. Floating point is a parameter; pkg/recipe/requires.go compares with it.
use servers.Base.{
  ℕ, suc, Bool, true, false, not, ◌&&◌, ◌||◌, List, [], ◌∷◌, ◌++◌, Option, none, some, Text, codes,
  eqt, is_empty, one_of, to_lower, trim_space, trim_suffix, trim_prefix, has_prefix, contains,
  cut_byte, cut_text, split_byte, fields, unix_lines, insert, Map, length, leb, ◌==◌, if◌then◌else◌,
  Result, ok, err, ◌>>=◌, max, any,
}
use servers.Setup.{GpuSpec, HardwareSpec}
use servers.Recipe.Flow.{Statement}
use servers.Recipe.Semver.{looks_like_semver}
use servers.Recipe.Tokens.{ParseError, is_letter, is_digit, parse_statements}

-- Go's float64 as far as `requires` goes: the numbers that `ParseFloat` reads, whether one is above
-- zero, and whether a size in tenths of gigabytes is below it.
pub record Float64 : Type 1 where
  pub F : Type 0
  pub zero : F
  pub parse : Text → Option F
  pub above_zero : F → Bool
  pub below : ℕ → F → Bool

pub data HeadError : Type 0 where
  -- The first line of the file is part of the message.
  no_pragma : Text → HeadError
  malformed_pragma not_semver : HeadError
  not_key_value bad_vram later_key unknown_key : ℕ → HeadError
  body : ParseError → HeadError

-- What stands before the trailing comment of the pragma.
unfoldable pub without_comment : Text → Text
without_comment rest = elim (cut_text (codes " #") rest) [
  | none ↦ rest
  | some (before, after) ↦ trim_space before
]

unfoldable pub pragma_words : List Text → Result HeadError Text
pragma_words (word ∷ version ∷ words) =
    if not (eqt word (codes "ISANN"))
    then err malformed_pragma
    else if looks_like_semver version
    then ok version
    else err not_semver
pragma_words _ = err malformed_pragma

unfoldable pub parse_pragma : List Text → Result HeadError Text
unfolding without_comment pragma_words
parse_pragma [] = err (no_pragma [])
parse_pragma (line ∷ lines) =
    let first = trim_space line in
    if is_empty first || not (has_prefix first (codes "#pragma"))
    then err (no_pragma line)
    else pragma_words (fields (without_comment (trim_space (trim_prefix first (codes "#pragma")))))

unfoldable pub is_key_rest : Text → Bool
is_key_rest [] = true
is_key_rest (c ∷ s) = (is_letter c || c == b'-' || is_digit c) && is_key_rest s

unfoldable pub is_doc_key : Text → Bool
unfolding is_key_rest
is_doc_key [] = false
is_doc_key (c ∷ s) = leb (length (c ∷ s)) 32 && (is_letter c || c == b'-') && is_key_rest s

-- One comment line of the doc string.
unfoldable pub doc_line : Text → Map Text → Map Text
unfolding is_doc_key
doc_line line out = elim (cut_byte b':' (trim_space (trim_prefix line (b'#' ∷ [])))) [
  | none ↦ out
  | some (key, val) ↦
      let k = trim_space key in
      let v = trim_space val in
      if is_empty k || is_empty v || not (is_doc_key k) then out else insert k v out
]

unfoldable pub doc_from : List Text → Map Text → Map Text
unfolding doc_line
doc_from [] out = out
doc_from (raw ∷ lines) out =
    let t = trim_space raw in
    let rest = doc_from lines (if is_empty t then out else doc_line t out) in
    if is_empty t
    then rest
    else if not (has_prefix t (b'#' ∷ [])) || eqt t (codes "# requires:")
    then out
    else rest

unfoldable pub parse_doc_string : List Text → Map Text
unfolding doc_from
parse_doc_string lines = doc_from lines []

unfoldable pub keep_words : List Text → List Text
keep_words [] = []
keep_words (p ∷ ps) =
    let rest = keep_words ps in if is_empty (trim_space p) then rest else trim_space p ∷ rest

unfoldable pub parse_alternation : Text → List Text
unfolding keep_words
parse_alternation s = keep_words (split_byte b'|' s)

-- The first line that is neither empty nor a comment, or the header of the block; its index, and
-- what follows the header, if it is one.
unfoldable pub seek_header : ℕ → List Text → ℕ × Option (List Text)
seek_header i [] = (i, none)
seek_header i (raw ∷ lines) =
    let t = trim_space raw in
    let rest = seek_header (suc i) lines in
    if is_empty t
    then rest
    else if eqt t (codes "requires:") || eqt t (codes "# requires:")
    then (i, some lines)
    else if has_prefix t (b'#' ∷ [])
    then rest
    else (i, none)

module _ (fl : Float64) where
  pub record Requires : Type 0 where
    pub vram_gb : fl.F
    pub gpu_patterns : List Text

  unfoldable pub parse_vram : Text → Option fl.F
  parse_vram s =
      let v = trim_space (trim_suffix (trim_space s) (b'+' ∷ [])) in
      let low = trim_suffix (trim_suffix (to_lower v) (codes "gb")) (codes "g") in
      fl.parse (trim_space low)

  -- One `key: value` of the block, on line `i + 1`.
  unfoldable pub requires_item : ℕ → Text → Text → Requires → Result HeadError Requires
  unfolding parse_vram parse_alternation
  requires_item i key val req =
      if eqt key (codes "vram")
      then (elim (parse_vram val) [
        | none ↦ err (bad_vram (suc i))
        | some gb ↦ ok (record req { vram_gb = gb })
      ])
      else if eqt key (codes "gpu")
      then ok (record req { gpu_patterns = parse_alternation val })
      else if one_of key
          (codes "os" ∷ codes "docker" ∷ codes "engines_installed" ∷ codes "engines_running" ∷ [])
      then err (later_key (suc i))
      else err (unknown_key (suc i))

  unfoldable pub requires_line : ℕ → Text → Requires → Result HeadError Requires
  unfolding requires_item
  requires_line i raw req =
      let item = trim_space (trim_prefix (trim_space raw) (b'#' ∷ [])) in
      if is_empty item then ok req else elim (cut_byte b':' item) [
        | none ↦ err (not_key_value (suc i))
        | some (key, val) ↦ requires_item i (trim_space key) (trim_space val) req
      ]

  -- The items up to an empty line, from index `i` on.
  unfoldable pub requires_items : ℕ → List Text → Requires → Result HeadError (ℕ × Requires)
  unfolding requires_line
  requires_items i [] req = ok (i, req)
  requires_items i (raw ∷ lines) req =
      if is_empty (trim_space raw)
      then ok (suc i, req)
      else (requires_line i raw req >>= requires_items (suc i) lines)

  unfoldable pub parse_requires : List Text → Result HeadError (ℕ × Option Requires)
  unfolding seek_header requires_items
  parse_requires lines =
      let (i, rest) = seek_header 0 lines in
      elim rest [
        | none ↦ ok (i, none)
        | some items ↦ do
          (start, req) ←
              requires_items (suc i) items (record { vram_gb = fl.zero; gpu_patterns = [] })
          ok (start, some req)
      ]

  pub record Recipe : Type 0 where
    pub path : Text
    pub min_isann_version : Text
    pub meta : Map Text
    pub requires : Option Requires
    pub statements : List Statement

  unfoldable pub parse_body : Text → List Text → ℕ → Result HeadError (List Statement)
  parse_body path lines start = elim (parse_statements path lines start) [
    | ok sts ↦ ok sts
    | err e ↦ err (body e)
  ]

  unfoldable pub parse_file : Text → Text → Result HeadError Recipe
  unfolding parse_pragma parse_doc_string parse_requires parse_body
  parse_file path src = do
    let lines = split_byte b'\n' (unix_lines src)
    version ← parse_pragma lines
    (start, req) ← parse_requires lines
    sts ← parse_body path lines start
    ok (record {
      path = path;
      min_isann_version = version;
      meta = parse_doc_string lines;
      requires = req;
      statements = sts;
    })

  -- `CheckAgainst`: which of the two demands are not met.
  pub data Unmet : Type 0 where
    vram_unmet gpu_unmet : Unmet

  unfoldable pub most_vram : List GpuSpec → ℕ
  most_vram [] = 0
  most_vram (g ∷ gs) = max g.vram_total (most_vram gs)

  unfoldable pub matches_gpu : List Text → GpuSpec → Bool
  matches_gpu ps g = any (λ p. contains (to_lower g.name) (to_lower p)) ps

  unfoldable pub check_against : Option Requires → HardwareSpec → List Unmet
  unfolding most_vram matches_gpu
  check_against none hw = []
  check_against (some r) hw =
      (if fl.above_zero r.vram_gb && fl.below (most_vram hw.gpus) r.vram_gb
        then vram_unmet ∷ []
        else [])
      ++ (if not (is_empty r.gpu_patterns) && not (any (matches_gpu r.gpu_patterns) hw.gpus)
          then gpu_unmet ∷ []
          else [])
