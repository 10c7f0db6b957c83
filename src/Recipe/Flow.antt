-- ===== src/Recipe/Flow.antt =====
-- pkg/recipe/runtime.go and parser.go: the statements of a recipe, the check of its IF blocks, and the
-- loop that runs them. Expanding `${...}` and executing a command are a `Machine`, which Builtins
-- implements; the memory that they work on is of any type. A dry run and traces are not modelled.
pub mod Nested
pub mod Refined
pub mod Valid
pub mod Marker
pub mod Safe
use servers.Base.{
  ℕ, Bool, true, false, not, ◌&&◌, List, [], ◌∷◌, ◌++◌, Option, none, some, Text, codes, eqt,
  one_of, is_empty, to_lower, trim_space, if◌then◌else◌, Result, ok, err,
}

pub data Control : Type 0 where
  normal if_marker elseif_marker else_marker end_marker : Control

pub record Statement : Type 0 where
  pub line : ℕ
  pub argv : List Text
  pub capture : Text
  pub src : Text
  pub control : Control
  pub cond : List Text

pub data RunError : Type 0 where
  no_open_if unresolved no_expression unknown_operator bad_expression failed : RunError

-- `expandArgv`, where `none` is an error, and the rest of a statement's run: the memory afterwards, and
-- whether it succeeded.
pub record Machine {ℓ} (W : Type ℓ) : Type ℓ where
  pub expand : List Text → W → Option (List Text)
  pub execute : Statement → List Text → W → W × Bool

unfoldable pub is_truthy : Text → Bool
is_truthy s = not (
    one_of (to_lower (trim_space s)) (
      codes ""
      ∷ codes "false"
      ∷ codes "0"
      ∷ codes "no"
      ∷ codes "off"
      ∷ codes "null"
      ∷ codes "nil"
      ∷ []))

unfoldable pub eval_assert_expr : List Text → Result RunError Bool
unfolding is_truthy
eval_assert_expr [] = err no_expression
eval_assert_expr (a ∷ []) = ok (is_truthy a)
eval_assert_expr (a ∷ op ∷ b ∷ []) =
    if eqt op (codes "==")
    then ok (eqt a b)
    else if eqt op (codes "!=")
    then ok (not (eqt a b))
    else err unknown_operator
eval_assert_expr _ = err bad_expression

pub record CondFrame : Type 0 where
  pub enclosing_active : Bool
  pub any_matched : Bool
  pub branch_active : Bool

-- The innermost block comes first.
unfoldable pub cond_active : List CondFrame → Bool
cond_active [] = true
cond_active (f ∷ stack) = f.branch_active

-- An IF in a context that runs, given its condition's value.
unfoldable pub open_block : Result RunError Bool → List CondFrame → List CondFrame × Option RunError
open_block (err e) stack = (stack, some e)
open_block (ok m) stack =
    (record { enclosing_active = true; any_matched = m; branch_active = m } ∷ stack, none)

-- An ELSE IF where no branch has matched; the frame comes switched off.
unfoldable pub next_branch :
    Result RunError Bool → CondFrame → List CondFrame → List CondFrame × Option RunError
next_branch (err e) off rest = (off ∷ rest, some e)
next_branch (ok true) off rest =
    (record off { branch_active = true; any_matched = true } ∷ rest, none)
next_branch (ok false) off rest = (off ∷ rest, none)

module _ {ℓ} {W : Type ℓ} (k : Machine W) where
  unfoldable pub eval_cond : Statement → W → Result RunError Bool
  unfolding eval_assert_expr
  eval_cond st w = elim (k.expand st.cond w) [
    | none ↦ err unresolved
    | some tokens ↦ eval_assert_expr tokens
  ]

  -- The stack afterwards, also where an error comes with it.
  unfoldable pub apply_control : Statement → List CondFrame → W → List CondFrame × Option RunError
  unfolding cond_active open_block next_branch
  apply_control st stack w = elim st.control [
    | normal ↦ (stack, none)
    | if_marker ↦ if cond_active stack then open_block (eval_cond st w) stack else (
      record { enclosing_active = false; any_matched = false; branch_active = false } ∷ stack,
      none,
    )
    | elseif_marker ↦ elim stack [
      | [] ↦ ([], some no_open_if)
      | f ∷ rest ↦
          let off : CondFrame = record f { branch_active = false } in
          if f.enclosing_active && not f.any_matched
          then next_branch (eval_cond st w) off rest
          else (off ∷ rest, none)
    ]
    | else_marker ↦ elim stack [
      | [] ↦ ([], some no_open_if)
      | f ∷ rest ↦
          let on = f.enclosing_active && not f.any_matched in
          (
            record f { branch_active = on; any_matched = if on then true else f.any_matched }
                ∷ rest,
            none,
          )
    ]
    | end_marker ↦ elim stack [ [] ↦ ([], some no_open_if) | f ∷ rest ↦ (rest, none) ]
  ]

  -- A normal statement in a context that runs.
  unfoldable pub perform : Statement → W → Result RunError W
  perform st w = elim (k.expand st.argv w) [
    | none ↦ err unresolved
    | some argv ↦ let (w', done) = k.execute st argv w in if done then ok w' else err failed
  ]

  -- The memory that a statement which fails leaves.
  unfoldable pub left_by : Statement → W → W
  left_by st w = elim (k.expand st.argv w) [ none ↦ w | some argv ↦ (k.execute st argv w).0 ]

  -- The loop of `Run`, with the failures so far. With `keep_going` a failure is noted, and the next
  -- statement is run with the stack and the memory as they then are.
  unfoldable pub run_from :
      Bool → List Statement → List CondFrame → W → List RunError → Result (List RunError) W
  unfolding apply_control perform left_by
  run_from keep_going [] stack w failures = if is_empty failures then ok w else err failures
  run_from keep_going (st ∷ sts) stack w failures =
      let (stack', problem) = apply_control st stack w in
      let noted : RunError → W → List CondFrame → Result (List RunError) W = (λ e w' s.
        if keep_going then run_from keep_going sts s w' (failures ++ (e ∷ [])) else err (e ∷ [])) in
      elim st.control [
        | normal ↦
            if cond_active stack
            then elim (perform st w) [
              | ok w' ↦ run_from keep_going sts stack w' failures
              | err e ↦ noted e (left_by st w) stack
            ]
            else run_from keep_going sts stack w failures
        | _ ↦ elim problem [
          | none ↦ run_from keep_going sts stack' w failures
          | some e ↦ noted e w stack'
        ]
      ]

  unfoldable pub run_recipe : Bool → List Statement → W → Result (List RunError) W
  unfolding run_from
  run_recipe keep_going sts w = run_from keep_going sts [] w []

-- `validateControlFlow`: the stack holds, for each IF that is open, whether its ELSE was seen.
pub data FlowError : Type 0 where
  outside_if after_else end_without_if not_closed : FlowError

unfoldable pub validate_from : List Bool → List Statement → Result FlowError (Unit {0})
validate_from [] [] = ok tt
validate_from (b ∷ stack) [] = err not_closed
validate_from stack (st ∷ sts) = elim st.control [
  | normal ↦ validate_from stack sts
  | if_marker ↦ validate_from (false ∷ stack) sts
  | elseif_marker ↦ elim stack [
    | [] ↦ err outside_if
    | saw ∷ rest ↦ let more = validate_from (saw ∷ rest) sts in if saw then err after_else else more
  ]
  | else_marker ↦ elim stack [
    | [] ↦ err outside_if
    | saw ∷ rest ↦
        let more = validate_from (true ∷ rest) sts in if saw then err after_else else more
  ]
  | end_marker ↦ elim stack [ [] ↦ err end_without_if | saw ∷ rest ↦ validate_from rest sts ]
]

unfoldable pub validate_control_flow : List Statement → Result FlowError (Unit {0})
unfolding validate_from
validate_control_flow = validate_from []
