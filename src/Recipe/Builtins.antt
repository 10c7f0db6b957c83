-- ===== src/Recipe/Builtins.antt =====
-- pkg/recipe/runtime.go: what a statement of a recipe does. The console, the clock and encoding/json
-- are an `Outside`, the isann commands, in the process or forked, are `Commands`; both act on a state
-- of any type. Error messages are not modelled: a statement succeeds or fails.
pub mod Guarded
use servers.Base.{
  ℕ, Bool, true, false, not, ◌&&◌, ◌||◌, List, [], ◌∷◌, ◌++◌, Option, none, some, is_some, Text,
  Map, codes, eqt, is_empty, one_of, trim_space, trim_suffix, has_prefix, join, any, reverse,
  insert, if◌then◌else◌, ok, err,
}
use servers.Recipe.Flow.{Statement, Machine, eval_assert_expr}
use servers.Recipe.Tokens.{is_var_name}
use servers.Recipe.Value.{Value, null, str, Printer}
use servers.Recipe.Expand.{expand_argv}

-- The outcome of a command: what it leaves, whether it succeeded, and what it printed.
abbrev pub Ran : Type 0 → Type 0
Ran O = O × Bool × Text

-- `InProcessDispatcher`, which may be unset, and may not know a command, and the child process. The
-- flag tells whether the output is captured.
pub record Commands (O : Type 0) : Type 0 where
  pub hook : Bool
  pub dispatch : Bool → List Text → O → O × Option (Bool × Text)
  pub fork : Bool → List Text → O → Ran O

pub record Outside (F O : Type 0) : Type 0 where
  pub getenv : Text → Text
  pub printer : Printer F
  pub decode : Text → Option (Value F)
  pub read_line : Bool → O → O × Option Text
  pub write_stderr : Text → O → O × Bool
  pub parse_duration : Text → Option ℕ
  pub wait : ℕ → O → O

pub record Runtime : Type 0 where
  pub force : Bool
  pub fork_only : Bool

pub record World (F O : Type 0) : Type 0 where
  pub memory : Map (Value F)
  pub outside : O

unfoldable pub argv_has_force : List Text → Bool
argv_has_force argv = any (λ a. eqt a (codes "-force") || eqt a (codes "--force")) argv

-- The propagation of -force.
unfoldable pub with_force : Runtime → List Text → List Text
unfolding argv_has_force
with_force rt (word ∷ verb ∷ words) =
    if rt.force
      && (eqt verb (codes "pull")
          && (one_of word (codes "app" ∷ codes "skill" ∷ codes "model" ∷ [])
              && not (argv_has_force (word ∷ verb ∷ words))))
    then word ∷ verb ∷ (words ++ (codes "-force" ∷ []))
    else word ∷ verb ∷ words
with_force rt argv = argv

abbrev has_suffix : Text → Text → Bool
has_suffix s t = has_prefix (reverse s) (reverse t)

-- The words before the first comma, and the message behind it.
unfoldable pub split_from : List Text → List Text → List Text × Text
split_from before [] = (before, [])
split_from before (t ∷ ts) =
    let rest = split_from (before ++ (t ∷ [])) ts in
    if eqt t (codes ",")
    then (if is_empty before then ([] ∷ [], join (codes " ") ts) else (before, join (codes " ") ts))
    else if has_suffix t (codes ",")
    then (before ++ (trim_suffix t (codes ",") ∷ []), join (codes " ") ts)
    else rest

unfoldable pub split_require_message : List Text → List Text × Text
unfolding split_from
split_require_message = split_from []

abbrev pub starts_install : List Text → Bool
starts_install [] = false
starts_install (verb ∷ words) = eqt verb (codes "install")

module _ {F O : Type 0} (rt : Runtime) (out : Outside F O) where
  abbrev pub Done : Type 0
  Done = World F O × Bool

  unfoldable pub exec_require : List Text → World F O → Done
  unfolding split_require_message eval_assert_expr
  exec_require words w = elim (eval_assert_expr (split_require_message words).0) [
    | err e ↦ (w, false)
    | ok holds ↦ (w, holds)
  ]

  unfoldable pub exec_var : List Text → World F O → Done
  unfolding is_var_name
  exec_var (name ∷ sign ∷ word ∷ words) w =
      if not (is_var_name name)
      then (w, false)
      else if not (eqt sign (codes "="))
      then (w, false)
      else (
        record w { memory = insert name (str (join (codes " ") (word ∷ words))) w.memory },
        true,
      )
  exec_var words w = (w, false)

  unfoldable pub exec_echo : List Text → World F O → Done
  exec_echo words w =
      let (o, done) = out.write_stderr (join (codes " ") words ++ (b'\n' ∷ [])) w.outside in
      (record w { outside = o }, done)

  unfoldable pub exec_sleep : List Text → World F O → Done
  exec_sleep (text ∷ []) w = elim (out.parse_duration text) [
    | none ↦ (w, false)
    | some d ↦ (record w { outside = out.wait d w.outside }, true)
  ]
  exec_sleep words w = (w, false)

  -- The line is kept if the statement has a capture.
  unfoldable pub keep_line : Statement → World F O → Option Text → Done
  keep_line st w none = (w, false)
  keep_line st w (some line) =
      if is_empty st.capture
      then (w, true)
      else (record w { memory = insert st.capture (str line) w.memory }, true)

  unfoldable pub prompt_and_read : Statement → Bool → List Text → World F O → Done
  unfolding keep_line
  prompt_and_read st secret words w =
      let prompt = join (codes " ") words in
      let asked = if is_empty prompt then w.outside else (out.write_stderr prompt w.outside).0 in
      let (o, line) = out.read_line secret asked in keep_line st (record w { outside = o }) line

  unfoldable pub exec_read : Statement → List Text → World F O → Done
  unfolding prompt_and_read
  exec_read st [] w = prompt_and_read st false [] w
  exec_read st (word ∷ words) w =
      if eqt word (codes "-secret")
      then prompt_and_read st true words w
      else prompt_and_read st false (word ∷ words) w

  -- `func <name>`
  unfoldable pub exec_func : Statement → List Text → World F O → Done
  unfolding exec_read
  exec_func st [] w = (w, false)
  exec_func st (name ∷ words) w =
      if eqt name (codes "read") then exec_read st words w else (w, false)

  unfoldable pub store_capture : Statement → Text → World F O → Done
  store_capture st raw w =
      let trimmed = trim_space raw in
      if is_empty trimmed
      then (record w { memory = insert st.capture null w.memory }, true)
      else elim (out.decode trimmed) [
        | none ↦ (w, false)
        | some v ↦ (record w { memory = insert st.capture v w.memory }, true)
      ]

  unfoldable pub after_capture : Statement → World F O → Ran O → Done
  unfolding store_capture
  after_capture st w (o, done, text) =
      let w' : World F O = record w { outside = o } in
      if done then store_capture st text w' else (w', false)

  abbrev pub after_plain : World F O → Ran O → Done
  after_plain w (o, done, text) = (record w { outside = o }, done)

  -- A builtin that has no value.
  abbrev uncaptured : Statement → World F O → Done → Done
  uncaptured st w done = if not (is_empty st.capture) then (w, false) else done

  module _ (cmds : Commands O) where
    -- In the process if it is known there, or else forked.
    unfoldable pub run_command : Bool → List Text → O → Ran O
    run_command captured argv o =
        if cmds.hook && not rt.fork_only
        then (let (o', handled) = cmds.dispatch captured argv o in
            elim handled [
              | some (done, text) ↦ (o', done, text)
              | none ↦ cmds.fork captured argv o'
            ])
        else cmds.fork captured argv o

    unfoldable pub exec_capture : Statement → List Text → World F O → Done
    unfolding run_command after_capture
    exec_capture st argv w = after_capture st w (run_command true argv w.outside)

    unfoldable pub exec_plain : List Text → World F O → Done
    unfolding run_command
    exec_plain argv w = after_plain w (run_command false argv w.outside)

    unfoldable pub exec_external : Statement → List Text → World F O → Done
    unfolding exec_capture exec_plain
    exec_external st argv w =
        if not (is_empty st.capture) then exec_capture st argv w else exec_plain argv w

    unfoldable pub exec_word : Statement → Text → List Text → World F O → Done
    unfolding exec_func exec_echo exec_sleep exec_var exec_require exec_external
    exec_word st word words w =
        if eqt word (codes "func")
        then exec_func st words w
        else if eqt word (codes "echo")
        then uncaptured st w (exec_echo words w)
        else if eqt word (codes "sleep")
        then uncaptured st w (exec_sleep words w)
        else if eqt word (codes "var")
        then uncaptured st w (exec_var words w)
        else if eqt word (codes "require") || eqt word (codes "assert")
        then uncaptured st w (exec_require words w)
        else if eqt word (codes "read")
        then (w, false)
        else if eqt word (codes "set")
        then (w, false)
        else exec_external st (word ∷ words) w

    unfoldable pub exec_statement : Statement → List Text → World F O → Done
    unfolding exec_word
    exec_statement st [] w = (w, false)
    exec_statement st (word ∷ words) w =
        if eqt word (codes "recipe")
        then (w, false)
        else if eqt word (codes "market") && starts_install words
        then (w, false)
        else exec_word st word words w

    -- The interface that the loop over the statements takes.
    unfoldable pub machine : Machine (World F O)
    unfolding expand_argv exec_statement with_force
    machine = record {
      expand = λ words w. elim (expand_argv F out.getenv out.printer w.memory words) [
        | ok argv ↦ some argv
        | err e ↦ none
      ];
      execute = λ st argv w. exec_statement st (with_force rt argv) w;
    }
