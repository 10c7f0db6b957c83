-- ===== src/Tests/Parser.antt =====
-- Runs of the recipe language's parser.
use servers.Base.{
  ℕ, ◌≡◌, ◌≢◌, refl, Bool, true, false, [], ◌∷◌, ◌++◌, none, some, Text, List, codes, ok, err,
  arith, All, length, map,
}
use servers.Recipe.Flow.{
  if_marker, end_marker, Statement, no_open_if, run_recipe, validate_control_flow,
}
use servers.Recipe.Tokens.{marker, command, parse_statements}
use servers.Recipe.Tokens.RoundTrip.{
  Source, run, store, opens, turns, otherwise, closes, render, meanings, IsSource, is_plain,
  parse_statements-render,
}
use servers.Recipe.Tokens.Sound.{IsStatement, parse_statements_sound}
use servers.Recipe.Header.{Float64, Recipe}
use servers.Recipe.Include.{FilePaths, Files, out_of_fuel, parse}
use servers.Recipe.Include.Ends.{parse_ends}
use servers.Recipe.Include.Balanced.{NoInclude, parse_sound}
use servers.Recipe.Semver.{Verdict, less, greater, compare_semver}
use servers.Tests.Recipe.{printer}

-- A word with a semicolon, a quote and a comment sign, a capture, and a block with three branches.
abbrev sources : List Source
sources =
    run (codes "echo") (codes "a; \"b\" # c" ∷ [])
    ∷ store (codes "x") (codes "node") (codes "list" ∷ [])
    ∷ opens (codes "${x}") []
    ∷ run (codes "echo") (codes "one" ∷ [])
    ∷ turns (codes "yes") []
    ∷ run (codes "echo") (codes "two" ∷ [])
    ∷ otherwise
    ∷ run (codes "echo") (codes "three" ∷ [])
    ∷ closes
    ∷ []

abbrev path : Text
path = codes "/r/a.isann"

abbrev header : List Text
header = codes "#pragma ISANN 1.0.0" ∷ codes "" ∷ []

sources-IsSource : All IsSource sources
unfolding is_plain servers.Recipe.Tokens.is_var_name servers.Recipe.Tokens.is_name_rest
    servers.Base.eqt
sources-IsSource = (refl, ((refl, refl), (tt, (refl, (tt, (refl, (tt, (refl, (tt, tt)))))))))

balanced : validate_control_flow (meanings path 3 sources) ≡ ok tt
unfolding validate_control_flow servers.Recipe.Flow.validate_from
balanced = refl

parse_statements-render_example :
    parse_statements path (header ++ map render sources) 2 ≡ ok (meanings path 3 sources)
parse_statements-render_example =
    parse_statements-render path header sources sources-IsSource balanced

parse_statements_sound_example :
    All (IsStatement path) (meanings path 3 sources)
    × (validate_control_flow (meanings path 3 sources) ≡ ok tt)
parse_statements_sound_example =
    parse_statements_sound path (header ++ map render sources) 2 (meanings path 3 sources)
      parse_statements-render_example

-- No number is read; paths are their own absolute paths.
abbrev pub no_floats : Float64
no_floats = record {
  F = ℕ;
  zero = 0;
  parse = λ s. none;
  above_zero = λ n. false;
  below = λ n m. false;
}

abbrev pub flat : FilePaths
flat = record { is_abs = λ s. true; join = λ a b. b; dir = λ s. s; abs = λ s. s }

abbrev pub included : Text
included = codes "#pragma ISANN 1.0.0\nvar y = 1;"

abbrev main : Text
main = codes "#pragma ISANN 1.0.0\nIF yes BEGIN\ninclude \"/r/b\";\nEND"

abbrev files : Files
files = (codes "/r/b", included) ∷ []

parse_ends_example : parse no_floats flat files 1 path main ≢ err out_of_fuel
parse_ends_example = parse_ends no_floats flat files 1 path main (omega arith)

-- What is loaded: the statement of the included file, inside the block.
abbrev loaded_recipe : Recipe no_floats
loaded_recipe = record {
  path = path;
  min_isann_version = codes "1.0.0";
  meta = [];
  requires = none;
  statements =
      marker if_marker (codes "yes" ∷ []) path 2
      ∷ command [] (codes "var" ∷ codes "y" ∷ codes "=" ∷ codes "1" ∷ []) (codes "/r/b") 2
      ∷ marker end_marker [] path 4
      ∷ [];
}

loaded : parse no_floats flat files 1 path main ≡ ok loaded_recipe
unfolding parse servers.Recipe.Header.parse_file servers.Base.split_byte servers.Base.unix_lines
    servers.Base.is_empty servers.Base.trim_space servers.Base.has_prefix servers.Base.fields
    servers.Base.cut_text servers.Base.trim_prefix servers.Base.eqt
    servers.Recipe.Semver.looks_like_semver servers.Base.parse_int parse_statements
    validate_control_flow servers.Base.one_of servers.Base.lookup servers.Base.cut_byte
loaded = refl

parse_sound_example :
    All NoInclude loaded_recipe.statements
    × (validate_control_flow loaded_recipe.statements ≡ ok tt)
    × (run_recipe printer false loaded_recipe.statements [] ≢ err (no_open_if ∷ []))
parse_sound_example = parse_sound printer [] no_floats flat files 1 path main loaded_recipe loaded
