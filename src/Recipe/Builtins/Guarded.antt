-- ===== src/Recipe/Builtins/Guarded.antt =====
-- Which commands a recipe can have executed.
use servers.Base.{
  ◌≡◌, refl, ap, Bool, true, false, not, ◌&&◌, List, [], ◌∷◌, Text, codes, eqt, is_empty, one_of,
  arith, Bool-cases, inl, inr,
}
use mathlib.Core.Path.{fun_ext}
use servers.Recipe.Flow.{Statement, run_recipe}
use servers.Recipe.Builtins.{
  Commands, Outside, Runtime, World, with_force, Done, run_command, exec_capture, exec_plain,
  exec_external, after_capture, after_plain, exec_word, starts_install, exec_statement, machine,
}

abbrev pub builtins : List Text
builtins =
    codes "func"
    ∷ codes "echo"
    ∷ codes "sleep"
    ∷ codes "var"
    ∷ codes "require"
    ∷ codes "assert"
    ∷ codes "read"
    ∷ codes "set"
    ∷ []

-- A command that is neither a builtin, nor `recipe`, nor `market install`.
unfoldable pub is_command : List Text → Bool
is_command [] = false
is_command (word ∷ words) =
    not (eqt word (codes "recipe"))
    && (not (eqt word (codes "market") && starts_install words) && not (one_of word builtins))

-- Two collections of commands that do the same on those.
pub record Agree {O : Type 0} (a b : Commands O) : Type 0 where
  pub hook : a.hook ≡ b.hook
  pub dispatch :
      (captured : Bool) (argv : List Text) (o : O)
      → is_command argv ≡ true
      → a.dispatch captured argv o ≡ b.dispatch captured argv o
  pub fork :
      (captured : Bool) (argv : List Text) (o : O)
      → is_command argv ≡ true
      → a.fork captured argv o ≡ b.fork captured argv o

module _ {F O : Type 0} (rt : Runtime) (out : Outside F O) (a b : Commands O)
    (same : Agree a b) where
  run_command-Agree :
      (captured : Bool) (argv : List Text) (o : O)
      → is_command argv ≡ true
      → run_command rt out a captured argv o ≡ run_command rt out b captured argv o
  unfolding run_command
  run_command-Agree captured argv o c = ground (
    arith,
    same.hook,
    same.dispatch captured argv o c,
    same.fork captured argv o c,
    same.fork captured argv (b.dispatch captured argv o).0 c,
  )

  exec_external-Agree :
      (st : Statement) (argv : List Text) (w : World F O)
      → is_command argv ≡ true
      → exec_external rt out a st argv w ≡ exec_external rt out b st argv w
  unfolding exec_external exec_capture exec_plain
  exec_external-Agree st argv w c = elim (Bool-cases (is_empty st.capture)) [
    | inl e ↦ rw e (ap (after_plain rt out w) (run_command-Agree false argv w.outside c))
    | inr e ↦ rw e (ap (after_capture rt out st w) (run_command-Agree true argv w.outside c))
  ]

  -- The words that the code tests for, one after the other.
  exec_word-Agree :
      (st : Statement) (word : Text) (words : List Text) (w : World F O)
      → eqt word (codes "recipe") ≡ false
      → (eqt word (codes "market") && starts_install words) ≡ false
      → exec_word rt out a st word words w ≡ exec_word rt out b st word words w
  unfolding exec_word one_of
  exec_word-Agree st word words w r m = elim (Bool-cases (one_of word builtins)) [
    | inl builtin ↦ ground arith
    | inr plain ↦
        let c : is_command (word ∷ words) ≡ true = unfold is_command in ground arith in
        ground (arith, exec_external-Agree st (word ∷ words) w c)
  ]

  exec_statement-Agree :
      (st : Statement) (argv : List Text) (w : World F O)
      → exec_statement rt out a st argv w ≡ exec_statement rt out b st argv w
  unfolding exec_statement
  exec_statement-Agree st [] w = refl
  exec_statement-Agree st (word ∷ words) w = elim (Bool-cases (eqt word (codes "recipe"))) [
    | inl r ↦ rw r
    | inr r ↦ elim (Bool-cases (eqt word (codes "market") && starts_install words)) [
      | inl m ↦ rw r (rw m)
      | inr m ↦ rw r (rw m (exec_word-Agree st word words w r m))
    ]
  ]

  machine-Agree : machine rt out a ≡ machine rt out b
  unfolding machine
  machine-Agree =
      ap
        (λ (ex : Statement → List Text → World F O → Done rt out). record {
          expand = (machine rt out b).expand;
          execute = λ st argv w. ex st (with_force rt argv) w;
        })
        (fun_ext (λ st. fun_ext (λ argv. fun_ext (λ w. exec_statement-Agree st argv w))))

-- Whatever the commands of isann would do when they are called as `recipe`, as `market install`, as a
-- builtin, or with no word at all, no recipe's run depends on it, whatever its words expand to and
-- whether or not -force is added: two collections of commands that agree on all others give the same
-- run, from the same state, with the same failures.
pub run_recipe-Agree :
    {F O : Type 0} (rt : Runtime) (out : Outside F O) (a b : Commands O) (keep_going : Bool)
    (sts : List Statement) (w : World F O)
    → Agree a b
    → run_recipe (machine rt out a) keep_going sts w
      ≡ run_recipe (machine rt out b) keep_going sts w
run_recipe-Agree rt out a b keep_going sts w same =
    ap (λ k. run_recipe k keep_going sts w) (machine-Agree rt out a b same)
