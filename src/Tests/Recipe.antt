-- ===== src/Tests/Recipe.antt =====
-- Runs of recipes with IF blocks.
use servers.Base.{
  ℕ, ◌≡◌, ◌≢◌, refl, true, false, [], ◌∷◌, ◌++◌, none, some, Text, List, codes, ok, err, Option,
  eqt, if◌then◌else◌,
}
use servers.Recipe.Flow.{Statement, normal, Machine, run_recipe, eval_cond}
use servers.Recipe.Flow.Nested.{
  Block, nothing, plain, choose, else_if, otherwise, flatten, run_block,
}
use servers.Recipe.Flow.Refined.{run_recipe-flatten}

-- The memory is the list of words that were printed; "?" is a variable without a value.
abbrev expand_tokens : List Text → Option (List Text)
expand_tokens [] = some []
expand_tokens (t ∷ ts) = if eqt t (codes "?") then none else some (t ∷ ts)

abbrev pub printer : Machine (List Text)
printer = record {
  expand = λ tokens w. expand_tokens tokens;
  execute = λ st argv w. (w ++ argv, true);
}

abbrev pub statement : List Text → List Text → Statement
statement argv cond = record {
  line = 1;
  argv = argv;
  capture = [];
  src = [];
  control = normal;
  cond = cond;
}

abbrev say : Text → Statement
say t = statement (t ∷ []) []

abbrev on : Text → Statement
on t = statement [] (t ∷ [])

abbrev program : Block
program =
    choose (on (codes "no")) (plain (say (codes "a")) nothing)
      (else_if (on (codes "yes")) (plain (say (codes "b")) nothing)
        (otherwise (say (codes "else")) (plain (say (codes "c")) nothing)))
      (plain (say (codes "d")) nothing)

-- The second branch is run, and what follows the block.
program_runs : run_recipe printer false (flatten program []) [] ≡ ok (codes "b" ∷ codes "d" ∷ [])
unfolding run_recipe flatten eval_cond eqt servers.Base.one_of servers.Base.to_lower
    servers.Base.trim_space servers.Base.is_empty
program_runs = refl

run_recipe-flatten_example :
    run_recipe printer false (flatten program []) [] ≡ run_block printer program []
run_recipe-flatten_example = run_recipe-flatten printer program []
