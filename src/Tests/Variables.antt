-- ===== src/Tests/Variables.antt =====
-- Runs of the recipe language's references and builtins.
use servers.Base.{
  ℕ, ◌≡◌, ◌≢◌, refl, true, false, [], ◌∷◌, ◌++◌, none, Text, Map, List, codes, err, if◌then◌else◌,
}
use servers.Recipe.Flow.{Statement, run_recipe}
use servers.Recipe.Value.{Value, str, arr, obj, end, item, close, field, Printer}
use servers.Recipe.Expand.{out_of_fuel, expand_token}
use servers.Recipe.Expand.Ends.{expand_token_ends}
use servers.Recipe.Expand.Template.{Piece, words, ref, render, expanded, expand_token-render}
use servers.Recipe.Builtins.{Commands, Outside, Runtime, machine}
use servers.Recipe.Builtins.Guarded.{is_command, Agree, run_recipe-Agree}
use servers.Tests.Recipe.{statement}

abbrev no_env : Text → Text
no_env name = []

abbrev bare : Printer ℕ
bare = record { float_text = λ n. []; list_text = λ vs. []; object_text = λ fs. [] }

-- nodes = [{"name": "a"}, {"name": "b"}]
abbrev named : Text → Value ℕ
named s = obj (field (codes "name") (str s) close)

abbrev memory : Map (Value ℕ)
memory = (codes "nodes", arr (item (named (codes "a")) (item (named (codes "b")) end))) ∷ []

abbrev pieces : List Piece
pieces = words (codes "to ") ∷ ref (codes "nodes[1].name") ∷ words (codes "!") ∷ []

expand_token_ends_example : expand_token ℕ no_env bare memory (codes "${nodes[0") ≢ err out_of_fuel
expand_token_ends_example = expand_token_ends ℕ no_env bare memory (codes "${nodes[0")

expand_token-render_example :
    expand_token ℕ no_env bare memory (render pieces) ≡ expanded ℕ no_env bare memory pieces
expand_token-render_example = expand_token-render ℕ no_env bare memory pieces (
  (refl, (refl, (refl, tt))),
  (
    (
      refl,
      (
        refl,
        (refl, (refl, (refl, (refl, (refl, (refl, (refl, (refl, (refl, (refl, (refl, tt))))))))))),
      ),
    ),
    ((refl, tt), tt),
  ),
)

-- The lines on the console, the last first.
abbrev console : Outside ℕ (List Text)
console = record {
  getenv = no_env;
  printer = bare;
  decode = λ s. none;
  read_line = λ secret o. (o, none);
  write_stderr = λ s o. (s ∷ o, true);
  parse_duration = λ s. none;
  wait = λ d o. o;
}

-- One runs whatever it is called as; the other does nothing for `recipe` and `market install`.
abbrev obliging : Commands (List Text)
obliging = record {
  hook = false;
  dispatch = λ captured argv o. (o, none);
  fork = λ captured argv o. (argv ++ o, true, []);
}

abbrev wary : Commands (List Text)
wary = record obliging {
  fork = λ captured argv o. if is_command argv then (argv ++ o, true, []) else (o, false, []);
}

agree : Agree obliging wary
agree = record {
  hook = refl;
  dispatch = λ captured argv o c. refl;
  fork = λ captured argv o c. rw c;
}

abbrev steps_run : List Statement
steps_run =
    statement (codes "var" ∷ codes "x" ∷ codes "=" ∷ codes "recipe" ∷ []) []
    ∷ statement (codes "app" ∷ codes "pull" ∷ codes "${x}" ∷ []) []
    ∷ statement (codes "${x}" ∷ codes "run" ∷ codes "evil" ∷ []) []
    ∷ []

abbrev forced : Runtime
forced = record { force = true; fork_only = false }

run_recipe-Agree_example :
    run_recipe
      (machine forced console obliging)
      true
      steps_run
      (record { memory = []; outside = [] })
    ≡ run_recipe (machine forced console wary) true steps_run (record { memory = []; outside = [] })
run_recipe-Agree_example =
    run_recipe-Agree forced console obliging wary true steps_run
      (record { memory = []; outside = [] }) agree
