-- ===== src/Recipe/Include.antt =====
-- pkg/recipe/parser.go: `include`, and `Parse`. The file system is a map from absolute paths to
-- contents that does not change meanwhile; path/filepath is a parameter. The recursion takes fuel.
pub mod Ends
pub mod Balanced
use servers.Base.{
  ℕ, zero, suc, Bool, true, false, List, [], ◌∷◌, ◌++◌, Option, none, some, Text, Map, codes, eqt,
  one_of, lookup, if◌then◌else◌, Result, ok, err, ◌>>=◌, is_some,
}
use servers.Recipe.Flow.{Statement}
use servers.Recipe.Header.{Float64, HeadError, Requires, Recipe, parse_file}

-- `filepath.IsAbs`, `Join`, `Dir` and `Abs`.
pub record FilePaths : Type 0 where
  pub is_abs : Text → Bool
  pub join : Text → Text → Text
  pub dir : Text → Text
  pub abs : Text → Text

-- The line of the include stands with its error.
pub data IncludeError : Type 0 where
  not_one_path cycle unreadable own_requires : ℕ → IncludeError
  head : HeadError → IncludeError
  out_of_fuel : IncludeError

-- The path that an `include` names; `none` for any other statement.
unfoldable pub include_of : Statement → Option (List Text)
include_of st = elim st.argv [
  | [] ↦ none
  | word ∷ words ↦ if eqt word (codes "include") then some words else none
]

abbrev pub Files : Type 0
Files = Map Text

module _ (fl : Float64) (paths : FilePaths) (files : Files) where
  abbrev pub Resolver : Type 0
  Resolver = List Statement → Text → List Text → Result IncludeError (List Statement)

  unfoldable pub target_of : Text → Text → Text
  target_of base path = paths.abs (if paths.is_abs path then path else paths.join base path)

  unfoldable pub load_recipe : Text → Text → Result IncludeError (Recipe fl)
  load_recipe path src = elim (parse_file fl path src) [ ok rc ↦ ok rc | err e ↦ err (head e) ]

  unfoldable pub without_requires : ℕ → Recipe fl → Result IncludeError (List Statement)
  without_requires line rc =
      if is_some rc.requires then err (own_requires line) else ok rc.statements

  -- The statements of the file that an `include` names; `chain` holds the files that are open.
  unfoldable pub inlined :
      Resolver → ℕ → List Text → Text → List Text → Result IncludeError (List Statement)
  unfolding target_of load_recipe without_requires
  inlined nested line (path ∷ []) base chain =
      let abs = target_of base path in
      if one_of abs chain then err (cycle line) else elim (lookup abs files) [
        | none ↦ err (unreadable line)
        | some src ↦ do
          rc ← load_recipe abs src
          sts ← without_requires line rc
          nested sts (paths.dir abs) (abs ∷ chain)
      ]
  inlined nested line words base chain = err (not_one_path line)

  -- The loop of `resolveIncludes`, given the call for the statements of an included file.
  unfoldable pub resolve_with :
      Resolver → List Statement → Text → List Text → Result IncludeError (List Statement)
  unfolding include_of inlined
  resolve_with nested [] base chain = ok []
  resolve_with nested (st ∷ sts) base chain = do
    here ← elim (include_of st) [
      | none ↦ ok (st ∷ [])
      | some words ↦ inlined nested st.line words base chain
    ]
    rest ← resolve_with nested sts base chain
    ok (here ++ rest)

  unfoldable pub resolve_includes : ℕ → Resolver
  unfolding resolve_with
  resolve_includes zero = resolve_with (λ sts base chain. err out_of_fuel)
  resolve_includes (suc fuel) = resolve_with (resolve_includes fuel)

  unfoldable pub parse : ℕ → Text → Text → Result IncludeError (Recipe fl)
  unfolding load_recipe resolve_includes
  parse fuel path src = do
    rc ← load_recipe path src
    sts ← resolve_includes fuel rc.statements (paths.dir (paths.abs path)) (paths.abs path ∷ [])
    ok (record rc { statements = sts })
