-- ===== src/Recipe/Expand/Paths.antt =====
-- A path as a variable and steps, and what pkg/recipe/expand.go makes of its text.
use servers.Base.{
  ℕ, zero, suc, ◌≤◌, ◌<◌, ◌≡◌, refl, sym, ap, ◌∙◌, true, false, ◌||◌, List, [], ◌∷◌, ◌++◌, Option,
  none, some, Text, Map, codes, eqt, is_empty, length, ◌==◌, lookup, Result, ok, err, ◌>>=◌, arith,
  Result-cases, inl, inr, All, append_assoc, length-append, two63, is_neg, format_nat, format_int,
  parse_int, parse_int-format_int, format_nat-IsDigit, IsDigit, All-append, All-map, NoSpace,
  trim_space-NoSpace, is_space,
}
use servers.Recipe.Tokens.{is_var_name, is_name_rest, is_letter, is_digit}
use servers.Recipe.Value.{Value, Printer}
use servers.Recipe.Expand.{
  ExpandError, unknown_variable, ident_rest, split_first_ident, select_field, element, select_index,
  walk, eval_path,
}
use servers.Recipe.Expand.Template.{Without, cut_byte-append}

pub data Step : Type 0 where
  dot : Text → Step
  index : ℕ → Step

abbrev pub IsStep : Step → Type 0
IsStep (dot name) = is_var_name name ≡ true
IsStep (index i) = i < two63

abbrev pub step_text : Step → Text
step_text (dot name) = b'.' ∷ name
step_text (index i) = b'[' ∷ (format_nat i ++ (b']' ∷ []))

abbrev pub render_steps : List Step → Text
render_steps [] = []
render_steps (s ∷ ss) = step_text s ++ render_steps ss

ident_rest-steps : (ss : List Step) → ident_rest (render_steps ss) ≡ ([], render_steps ss)
unfolding ident_rest
ident_rest-steps [] = refl
ident_rest-steps (dot name ∷ ss) = refl
ident_rest-steps (index i ∷ ss) = refl

ident_rest-append :
    (name rest : Text)
    → is_name_rest name ≡ true
    → ident_rest rest ≡ ([], rest)
    → ident_rest (name ++ rest) ≡ (name, rest)
unfolding ident_rest is_name_rest
ident_rest-append [] rest n r = r
ident_rest-append (c ∷ name) rest n r =
    let fine : (is_letter c || is_digit c) ≡ true = ground arith in
    rw (ident_rest-append name rest (ground arith) r) (rw fine)

split_first_ident-append :
    (name rest : Text)
    → is_var_name name ≡ true
    → ident_rest rest ≡ ([], rest)
    → split_first_ident (name ++ rest) ≡ ok (name, rest)
unfolding split_first_ident is_var_name
split_first_ident-append [] rest n r = absurd (ground arith)
split_first_ident-append (c ∷ name) rest n r =
    let fine : is_letter c ≡ true = ground arith in
    rw (ident_rest-append name rest (ground arith) r) (rw fine)

digit-Without : (c : ℕ) → IsDigit c → (c == b']') ≡ false
digit-Without c h = ground arith

digit-NoSpace : (c : ℕ) → IsDigit c → is_space c ≡ false
unfolding is_space
digit-NoSpace c h = ground arith

Without-All : (b : ℕ) (s : Text) → All (λ c. (c == b) ≡ false) s → Without b s
Without-All b [] h = tt
Without-All b (c ∷ s) h = (h.0, Without-All b s h.1)

name-NoSpace : (name : Text) → is_name_rest name ≡ true → NoSpace name
unfolding is_name_rest is_space
name-NoSpace [] h = tt
name-NoSpace (c ∷ name) h = (ground arith, name-NoSpace name (ground arith))

var_name-NoSpace : (name : Text) → is_var_name name ≡ true → NoSpace name
unfolding is_var_name is_space
var_name-NoSpace [] h = tt
var_name-NoSpace (c ∷ name) h = (ground arith, name-NoSpace name (ground arith))

abbrev digits : (i : ℕ) → i < two63 → All IsDigit (format_nat i)
digits i h = (format_nat-IsDigit i (omega arith)).0

parse_int-format_nat : (i : ℕ) → i < two63 → parse_int (format_nat i) ≡ some i
parse_int-format_nat i h =
    let plain : is_neg i ≡ false = ground arith in
    let same : format_int i ≡ format_nat i = unfold format_int in rw plain in
    sym (ap parse_int same) ∙ parse_int-format_int i (omega arith)

step_text-NoSpace : (s : Step) → IsStep s → NoSpace (step_text s)
unfolding is_space
step_text-NoSpace (dot name) h = (refl, var_name-NoSpace name h)
step_text-NoSpace (index i) h = (
  refl,
  All-append (λ c. is_space c ≡ false) (format_nat i) (b']' ∷ [])
      (All-map digit-NoSpace (format_nat i) (digits i h)) (refl, tt),
)

render_steps-NoSpace : (ss : List Step) → All IsStep ss → NoSpace (render_steps ss)
render_steps-NoSpace [] h = tt
render_steps-NoSpace (s ∷ ss) h =
    All-append (λ c. is_space c ≡ false) (step_text s) (render_steps ss) (step_text-NoSpace s h.0)
      (render_steps-NoSpace ss h.1)

module _ (F : Type 0) where
  -- One step after the other; the first that fails is the result.
  abbrev pub follow : Value F → List Step → Result ExpandError (Value F)
  follow v [] = ok v
  follow v (dot name ∷ ss) = select_field F name v >>= λ v'. follow v' ss
  follow v (index i ∷ ss) = element F i v >>= λ v'. follow v' ss

  select_index-format_nat :
      (i : ℕ) (v : Value F) → i < two63 → select_index F (format_nat i) v ≡ element F i v
  unfolding select_index
  select_index-format_nat i v h =
      let trimmed =
        trim_space-NoSpace (format_nat i) (All-map digit-NoSpace (format_nat i) (digits i h)) in
      rw (trimmed, select_index) (rw (parse_int-format_nat i h))

  walk-dot :
      (fuel : ℕ) (v : Value F) (name rest : Text)
      → is_var_name name ≡ true
      → ident_rest rest ≡ ([], rest)
      → walk F (suc fuel) v (b'.' ∷ (name ++ rest))
        ≡ (select_field F name v >>= λ v'. walk F fuel v' rest)
  unfolding walk
  walk-dot fuel v name rest n r = rw (split_first_ident-append name rest n r)

  walk-index :
      (fuel : ℕ) (v : Value F) (i : ℕ) (rest : Text)
      → i < two63
      → walk F (suc fuel) v (b'[' ∷ (format_nat i ++ (b']' ∷ rest)))
        ≡ (element F i v >>= λ v'. walk F fuel v' rest)
  unfolding walk
  walk-index fuel v i rest h =
      let inside =
        Without-All b']' (format_nat i) (All-map digit-Without (format_nat i) (digits i h)) in
      rw (cut_byte-append b']' (format_nat i) rest inside) (rw (select_index-format_nat i v h))

  walk-render_steps :
      (ss : List Step) (fuel : ℕ) (v : Value F)
      → All IsStep ss
      → length ss ≤ fuel
      → walk F fuel v (render_steps ss) ≡ follow v ss
  walk-render_steps [] zero v h enough = unfold walk in refl
  walk-render_steps [] (suc fuel) v h enough = unfold walk in refl
  walk-render_steps (s ∷ ss) zero v h enough = absurd (omega arith)
  walk-render_steps (dot name ∷ ss) (suc fuel) v h enough =
      walk-dot fuel v name (render_steps ss) h.0 (ident_rest-steps ss)
      ∙ elim (Result-cases (select_field F name v)) [
        | inr (x, e) ↦ rw e
        | inl (v', e) ↦ rw e (walk-render_steps ss fuel v' h.1 (omega arith))
      ]
  walk-render_steps (index i ∷ ss) (suc fuel) v h enough =
      ap (λ t. walk F (suc fuel) v (b'[' ∷ t))
        (append_assoc (format_nat i) (b']' ∷ []) (render_steps ss))
      ∙ (walk-index fuel v i (render_steps ss) h.0 ∙ elim (Result-cases (element F i v)) [
        | inr (x, e) ↦ rw e
        | inl (v', e) ↦ rw e (walk-render_steps ss fuel v' h.1 (omega arith))
      ])

  length-render_steps : (ss : List Step) → length ss ≤ length (render_steps ss)
  length-render_steps [] = omega arith
  length-render_steps (dot name ∷ ss) =
      omega (arith, length-render_steps ss, length-append name (render_steps ss))
  length-render_steps (index i ∷ ss) =
      omega (
        arith,
        length-render_steps ss,
        length-append (format_nat i ++ (b']' ∷ [])) (render_steps ss),
      )

  -- The text of a path, which names a variable and then fields and indices, is evaluated to what those
  -- steps give, one after the other, from the variable's value; a variable that has none is an error,
  -- and so is the first step that fails.
  eval_path-render :
      (getenv : Text → Text) (printer : Printer F) (memory : Map (Value F)) (root : Text)
      (ss : List Step)
      → is_var_name root ≡ true
      → eqt root (codes "env") ≡ false
      → All IsStep ss
      → eval_path F getenv printer memory (root ++ render_steps ss)
        ≡ elim (lookup root memory) [ none ↦ err unknown_variable | some v ↦ follow v ss ]
  unfolding eval_path
  eval_path-render getenv printer memory root ss r env h =
      let path = root ++ render_steps ss in
      let spaceless =
        All-append (λ c. is_space c ≡ false) root (render_steps ss) (var_name-NoSpace root r)
          (render_steps-NoSpace ss h) in
      rw (trim_space-NoSpace path spaceless, eval_path)
        (rw (some_text root (render_steps ss) r) (
          rw (split_first_ident-append root (render_steps ss) r (ident_rest-steps ss))
            (rw env (by_value (lookup root memory)))))
    where
      some_text : (root rest : Text) → is_var_name root ≡ true → is_empty (root ++ rest) ≡ false
      some_text [] rest r = absurd (unfold is_var_name in ground arith)
      some_text (c ∷ s) rest r = unfold is_empty in refl

      by_value :
          (o : Option (Value F))
          → elim o [
            | none ↦ err unknown_variable
            | some v ↦ walk F (length (render_steps ss)) v (render_steps ss)
          ]
            ≡ elim o [ none ↦ err unknown_variable | some v ↦ follow v ss ]
      by_value none = refl
      by_value (some v) =
          walk-render_steps ss (length (render_steps ss)) v h (length-render_steps ss)
