-- ===== src/Recipe/Flow/Nested.antt =====
-- IF blocks as a tree: what the loop over the flat statements is to do.
use servers.Base.{List, [], ◌∷◌, if◌then◌else◌, Result, ok, err, ◌>>=◌}
use servers.Recipe.Flow.{
  Control, normal, if_marker, elseif_marker, else_marker, end_marker, Statement, RunError, Machine,
  eval_cond, perform,
}

mutual
  pub data Block : Type 0 where
    nothing : Block
    plain : Statement → Block → Block
    choose : Statement → Block → Branches → Block → Block

  -- What follows the first branch, up to END.
  pub data Branches : Type 0 where
    no_more : Branches
    else_if : Statement → Block → Branches → Branches
    otherwise : Statement → Block → Branches

abbrev pub marked : Control → Statement → Statement
marked c st = record st { control = c }

abbrev pub end_statement : Statement
end_statement = record {
  line = 0;
  argv = [];
  capture = [];
  src = [];
  control = end_marker;
  cond = [];
}

-- The statements of a block, as the parser lists them, before some others.
unfoldable mutual
  pub flatten : Block → List Statement → List Statement
  flatten nothing sts = sts
  flatten (plain st b) sts = marked normal st ∷ flatten b sts
  flatten (choose st body branches b) sts =
      marked if_marker st ∷ flatten body (flatten_branches branches (flatten b sts))

  pub flatten_branches : Branches → List Statement → List Statement
  flatten_branches no_more sts = end_statement ∷ sts
  flatten_branches (else_if st body branches) sts =
      marked elseif_marker st ∷ flatten body (flatten_branches branches sts)
  flatten_branches (otherwise st body) sts =
      marked else_marker st ∷ flatten body (end_statement ∷ sts)

-- A single error ends the run.
abbrev pub alone {ℓ} : {A : Type ℓ} → Result RunError A → Result (List RunError) A
alone (ok a) = ok a
alone (err e) = err (e ∷ [])

module _ {ℓ} {W : Type ℓ} (k : Machine W) where
  -- The first branch whose condition holds is run, and no other; conditions behind it are not looked at.
  unfoldable mutual
    pub run_block : Block → W → Result (List RunError) W
    run_block nothing w = ok w
    run_block (plain st b) w = alone (perform k (marked normal st) w) >>= λ w'. run_block b w'
    run_block (choose st body branches b) w =
        (alone (eval_cond k (marked if_marker st) w) >>= λ m.
        (if m then run_block body w else run_branches branches w))
        >>= λ w'. run_block b w'

    pub run_branches : Branches → W → Result (List RunError) W
    run_branches no_more w = ok w
    run_branches (else_if st body branches) w =
        alone (eval_cond k (marked elseif_marker st) w) >>= λ m.
        (if m then run_block body w else run_branches branches w)
    run_branches (otherwise st body) w = run_block body w
