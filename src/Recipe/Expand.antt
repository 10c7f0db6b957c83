-- ===== src/Recipe/Expand.antt =====
-- pkg/recipe/expand.go: `${path}` in the words of a command. The two loops take fuel: the length of
-- what they read.
pub mod Ends
pub mod Template
pub mod Paths
use servers.Base.{
  ℕ, zero, suc, Bool, true, false, not, ◌&&◌, ◌||◌, List, [], ◌∷◌, ◌++◌, Option, none, some, Text,
  Map, codes, eqt, is_empty, trim_space, contains, cut_byte, cut_prefix, parse_int, is_neg, lookup,
  length, ◌==◌, if◌then◌else◌, Result, ok, err, ◌>>=◌,
}
use servers.Recipe.Tokens.{is_letter, is_digit}
use servers.Recipe.Value.{
  Value, null, bool, str, int, float, arr, obj, items_at, items_length, field_of, Printer,
  stringify,
}

pub data ExpandError : Type 0 where
  empty_path expected_identifier env_name env_continuation unknown_variable : ExpandError
  no_length not_object no_field unmatched_bracket bad_index not_array out_of_range : ExpandError
  unexpected_character unterminated out_of_fuel : ExpandError

-- The letters, digits and underscores in front, and the rest.
unfoldable pub ident_rest : Text → Text × Text
ident_rest [] = ([], [])
ident_rest (c ∷ s) =
    let (name, rest) = ident_rest s in
    if is_letter c || is_digit c then (c ∷ name, rest) else ([], c ∷ s)

unfoldable pub split_first_ident : Text → Result ExpandError (Text × Text)
unfolding ident_rest
split_first_ident [] = err expected_identifier
split_first_ident (c ∷ s) =
    let (name, rest) = ident_rest s in
    if is_letter c then ok (c ∷ name, rest) else err expected_identifier

-- What follows `${`.
unfoldable pub opened : ℕ → Text → Option Text
opened c s = if c == b'$' then cut_prefix (b'{' ∷ []) s else none

module _ (F : Type 0) where
  -- `.length`
  unfoldable pub length_of : Value F → Result ExpandError (Value F)
  length_of (arr vs) = ok (int (items_length F vs))
  length_of (str s) = ok (int (length s))
  length_of _ = err no_length

  -- `.name` for any other name
  unfoldable pub named_field : Text → Value F → Result ExpandError (Value F)
  named_field name (obj fs) = elim (field_of F name fs) [ none ↦ err no_field | some v ↦ ok v ]
  named_field name _ = err not_object

  unfoldable pub select_field : Text → Value F → Result ExpandError (Value F)
  unfolding length_of named_field
  select_field name v = if eqt name (codes "length") then length_of v else named_field name v

  unfoldable pub element : ℕ → Value F → Result ExpandError (Value F)
  element i (arr vs) =
      if is_neg i
      then err out_of_range
      else elim (items_at F vs i) [ none ↦ err out_of_range | some v ↦ ok v ]
  element i _ = err not_array

  -- `[i]`, given what stands between the brackets.
  unfoldable pub select_index : Text → Value F → Result ExpandError (Value F)
  unfolding element
  select_index inside v = elim (parse_int (trim_space inside)) [
    | none ↦ err bad_index
    | some i ↦ element i v
  ]

  -- The loop over the rest of a path.
  unfoldable pub walk : ℕ → Value F → Text → Result ExpandError (Value F)
  unfolding split_first_ident select_field select_index
  walk fuel v [] = ok v
  walk zero v (c ∷ s) = err out_of_fuel
  walk (suc fuel) v (c ∷ s) =
      if c == b'.'
      then (do (name, next) ← split_first_ident s; v' ← select_field name v; walk fuel v' next)
      else if c == b'['
      then elim (cut_byte b']' s) [
        | none ↦ err unmatched_bracket
        | some (inside, next) ↦ do v' ← select_index inside v; walk fuel v' next
      ]
      else err unexpected_character

  -- `${env.NAME}`
  unfoldable pub eval_env : (Text → Text) → Text → Result ExpandError (Value F)
  unfolding split_first_ident
  eval_env getenv [] = err env_name
  eval_env getenv (c ∷ s) =
      if not (c == b'.')
      then err env_name
      else (split_first_ident s >>= λ (name, next).
          if is_empty next then ok (str (getenv name)) else err env_continuation)

  module _ (getenv : Text → Text) (printer : Printer F) (memory : Map (Value F)) where
    unfoldable pub eval_path : Text → Result ExpandError (Value F)
    unfolding split_first_ident walk eval_env
    eval_path text =
        let path = trim_space text in
        if is_empty path
        then err empty_path
        else (split_first_ident path >>= λ (root, rest).
            if eqt root (codes "env") then eval_env getenv rest else elim (lookup root memory) [
              | none ↦ err unknown_variable
              | some v ↦ walk (length rest) v rest
            ])

    unfoldable pub expand_from : ℕ → Text → Result ExpandError Text
    unfolding eval_path
    expand_from fuel [] = ok []
    expand_from zero (c ∷ s) = err out_of_fuel
    expand_from (suc fuel) (c ∷ s) = elim (opened c s) [
      | none ↦ expand_from fuel s >>= λ out. ok (c ∷ out)
      | some t ↦ elim (cut_byte b'}' t) [
        | none ↦ err unterminated
        | some (path, next) ↦ do
          v ← eval_path path
          out ← expand_from fuel next
          ok (stringify F printer v ++ out)
      ]
    ]

    unfoldable pub expand_token : Text → Result ExpandError Text
    unfolding expand_from
    expand_token tok =
        if not (contains tok (codes "${")) then ok tok else expand_from (length tok) tok

    unfoldable pub expand_argv : List Text → Result ExpandError (List Text)
    unfolding expand_token
    expand_argv [] = ok []
    expand_argv (t ∷ ts) = do v ← expand_token t; vs ← expand_argv ts; ok (v ∷ vs)
