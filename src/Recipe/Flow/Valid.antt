-- ===== src/Recipe/Flow/Valid.antt =====
-- What the check of IF blocks is worth when the recipe runs, and what a failing condition does.
use servers.Base.{
  ◌≡◌, ◌≢◌, refl, ◌∙◌, Bool, true, false, List, [], ◌∷◌, ◌++◌, Text, ok, err, arith, Option-cases,
  Bool-cases, inl, inr,
}
use servers.Recipe.Flow.{
  normal, if_marker, Statement, RunError, no_open_if, Machine, CondFrame, cond_active, eval_cond,
  eval_assert_expr, open_block, apply_control, perform, run_from, validate_from,
  validate_control_flow,
}
use servers.Recipe.Flow.Nested.{
  Block, nothing, plain, choose, Branches, no_more, else_if, otherwise, marked, end_statement,
  flatten, flatten_branches,
}

step_normal :
    (st : Statement) (sts : List Statement) (stack : List Bool)
    → validate_from stack (marked normal st ∷ sts) ≡ validate_from stack sts
unfolding validate_from
step_normal st sts [] = refl
step_normal st sts (b ∷ stack) = refl

step_if :
    (st : Statement) (sts : List Statement) (stack : List Bool)
    → validate_from stack (marked if_marker st ∷ sts) ≡ validate_from (false ∷ stack) sts
unfolding validate_from
step_if st sts [] = refl
step_if st sts (b ∷ stack) = refl

-- The check passes the statements of every tree.
mutual
  unfolding flatten validate_from

  flatten-validate :
      (b : Block) (sts : List Statement) (stack : List Bool)
      → validate_from stack (flatten b sts) ≡ validate_from stack sts
  flatten-validate nothing sts stack = refl
  flatten-validate (plain st b) sts stack =
      step_normal st (flatten b sts) stack ∙ flatten-validate b sts stack
  flatten-validate (choose st body branches b) sts stack =
      step_if st (flatten body (flatten_branches branches (flatten b sts))) stack
      ∙ (flatten-validate body (flatten_branches branches (flatten b sts)) (false ∷ stack)
          ∙ (flatten_branches-validate branches (flatten b sts) stack
              ∙ flatten-validate b sts stack))

  flatten_branches-validate :
      (branches : Branches) (sts : List Statement) (stack : List Bool)
      → validate_from (false ∷ stack) (flatten_branches branches sts) ≡ validate_from stack sts
  flatten_branches-validate no_more sts stack = refl
  flatten_branches-validate (else_if st body branches) sts stack =
      flatten-validate body (flatten_branches branches sts) (false ∷ stack)
      ∙ flatten_branches-validate branches sts stack
  flatten_branches-validate (otherwise st body) sts stack =
      flatten-validate body (end_statement ∷ sts) (true ∷ stack)

-- The statements of nested IF blocks pass the check, whatever the nesting.
validate_control_flow-flatten : (b : Block) → validate_control_flow (flatten b []) ≡ ok tt
unfolding validate_control_flow
validate_control_flow-flatten b = flatten-validate b [] [] ∙ nil
  where
    nil : validate_from [] [] ≡ ok tt
    nil = unfold validate_from in refl

module _ {ℓ} {W : Type ℓ} (k : Machine W) where
  eval_assert_expr-no_open_if : (ts : List Text) → eval_assert_expr ts ≢ err no_open_if
  unfolding eval_assert_expr
  eval_assert_expr-no_open_if [] h = absurd (ground arith)
  eval_assert_expr-no_open_if (a ∷ []) h = absurd (ground arith)
  eval_assert_expr-no_open_if (a ∷ b ∷ []) h = absurd (ground arith)
  eval_assert_expr-no_open_if (a ∷ b ∷ c ∷ []) h = absurd (ground arith)
  eval_assert_expr-no_open_if (a ∷ b ∷ c ∷ d ∷ ts) h = absurd (ground arith)

  pub eval_cond-no_open_if : (st : Statement) (w : W) → eval_cond k st w ≢ err no_open_if
  unfolding eval_cond
  eval_cond-no_open_if st w h = elim (Option-cases (k.expand st.cond w)) [
    | inl e ↦ absurd (ground arith)
    | inr (ts, e) ↦ absurd (eval_assert_expr-no_open_if ts (ground arith))
  ]

  pub perform-no_open_if : (st : Statement) (w : W) → perform k st w ≢ err no_open_if
  unfolding perform
  perform-no_open_if st w h = elim (Option-cases (k.expand st.argv w)) [
    | inl e ↦ absurd (ground arith)
    | inr (ts, e) ↦ elim (Bool-cases (k.execute st ts w).1) [
      | inl f ↦ absurd (ground arith)
      | inr f ↦ absurd (ground arith)
    ]
  ]

  -- A condition that fails in an IF opens no block, where the run keeps going: the statements up to
  -- END, ELSE and all, are run from the same stack, so that those of the first branch are run.
  run_from-failed_if :
      (st : Statement) (sts : List Statement) (stack : List CondFrame) (w : W)
      (failures : List RunError) (e : RunError)
      → cond_active stack ≡ true
      → eval_cond k (marked if_marker st) w ≡ err e
      → run_from k true (marked if_marker st ∷ sts) stack w failures
        ≡ run_from k true sts stack w (failures ++ (e ∷ []))
  unfolding run_from apply_control open_block
  run_from-failed_if st sts stack w failures e a h = ground arith
