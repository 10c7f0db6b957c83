-- ===== src/Recipe/Expand/Ends.antt =====
-- The loops of pkg/recipe/expand.go end: the fuel is enough.
use servers.Base.{
  ℕ, zero, suc, ◌≤◌, ◌<◌, ◌≡◌, ◌≢◌, [], ◌∷◌, some, Text, Map, codes, eqt, is_empty, trim_space,
  contains, cut_byte, cut_prefix, parse_int, lookup, length, ◌==◌, ok, err, arith, Bool-cases,
  Option-cases, Result-cases, inl, inr,
}
use servers.Recipe.Value.{Value, str, arr, obj, Printer}
use servers.Recipe.Expand.{
  out_of_fuel, ident_rest, split_first_ident, length_of, named_field, select_field, element,
  select_index, walk, eval_env, eval_path, opened, expand_from, expand_token,
}

pub cut_byte-length : (b : ℕ) (s x y : Text) → cut_byte b s ≡ some (x, y) → length y < length s
unfolding cut_byte
cut_byte-length b [] x y h = absurd (ground arith)
cut_byte-length b (c ∷ s) x y h = elim (Option-cases (cut_byte b s)) [
  | inl e ↦ ground arith
  | inr ((x', y'), e) ↦ ground (arith, cut_byte-length b s x' y' e)
]

pub ident_rest-length : (s : Text) → length (ident_rest s).1 ≤ length s
unfolding ident_rest
ident_rest-length [] = omega arith
ident_rest-length (c ∷ s) = ground (arith, ident_rest-length s)

split_first_ident-length :
    (s name rest : Text) → split_first_ident s ≡ ok (name, rest) → length rest < length s
unfolding split_first_ident
split_first_ident-length [] name rest h = absurd (ground arith)
split_first_ident-length (c ∷ s) name rest h = ground (arith, ident_rest-length s)

split_first_ident-ends : (s : Text) → split_first_ident s ≢ err out_of_fuel
unfolding split_first_ident
split_first_ident-ends [] h = absurd (ground arith)
split_first_ident-ends (c ∷ s) h = absurd (ground arith)

module _ (F : Type 0) where
  length_of-ends : (v : Value F) → length_of F v ≢ err out_of_fuel
  unfolding length_of
  length_of-ends (arr vs) h = absurd (ground arith)
  length_of-ends (str s) h = absurd (ground arith)
  length_of-ends _ h = absurd (ground arith)

  named_field-ends : (name : Text) (v : Value F) → named_field F name v ≢ err out_of_fuel
  unfolding named_field
  named_field-ends name (obj fs) h = absurd (ground arith)
  named_field-ends name _ h = absurd (ground arith)

  select_field-ends : (name : Text) (v : Value F) → select_field F name v ≢ err out_of_fuel
  unfolding select_field
  select_field-ends name v h = absurd (ground (arith, length_of-ends v, named_field-ends name v))

  element-ends : (i : ℕ) (v : Value F) → element F i v ≢ err out_of_fuel
  unfolding element
  element-ends i (arr vs) h = absurd (ground arith)
  element-ends i _ h = absurd (ground arith)

  select_index-ends : (inside : Text) (v : Value F) → select_index F inside v ≢ err out_of_fuel
  unfolding select_index
  select_index-ends inside v h = elim (Option-cases (parse_int (trim_space inside))) [
    | inl e ↦ absurd (ground arith)
    | inr (i, e) ↦ element-ends i v (ground arith)
  ]

  walk-ends :
      (fuel : ℕ) (v : Value F) (s : Text) → length s ≤ fuel → walk F fuel v s ≢ err out_of_fuel
  unfolding walk
  walk-ends zero v [] enough h = absurd (ground arith)
  walk-ends (suc fuel) v [] enough h = absurd (ground arith)
  walk-ends zero v (c ∷ s) enough h = absurd (omega arith)
  walk-ends (suc fuel) v (c ∷ s) enough h = elim (Bool-cases (c == b'.')) [
    | inl dot ↦ elim (Result-cases (split_first_ident s)) [
      | inr (e, p) ↦ split_first_ident-ends s (ground arith)
      | inl ((name, next), p) ↦ elim (Result-cases (select_field F name v)) [
        | inr (e, q) ↦ select_field-ends name v (ground arith)
        | inl (v', q) ↦
            let shorter = split_first_ident-length s name next p in
            walk-ends fuel v' next (omega arith) (ground arith)
      ]
    ]
    | inr dot ↦ elim (Bool-cases (c == b'[')) [
      | inr b ↦ absurd (ground arith)
      | inl b ↦ elim (Option-cases (cut_byte b']' s)) [
        | inl cut ↦ absurd (ground arith)
        | inr ((inside, next), cut) ↦ elim (Result-cases (select_index F inside v)) [
          | inr (e, q) ↦ select_index-ends inside v (ground arith)
          | inl (v', q) ↦
              let shorter = cut_byte-length b']' s inside next cut in
              walk-ends fuel v' next (omega arith) (ground arith)
        ]
      ]
    ]
  ]

  eval_env-ends : (getenv : Text → Text) (s : Text) → eval_env F getenv s ≢ err out_of_fuel
  unfolding eval_env
  eval_env-ends getenv [] h = absurd (ground arith)
  eval_env-ends getenv (c ∷ s) h = elim (Result-cases (split_first_ident s)) [
    | inr (e, p) ↦ absurd (ground (arith, split_first_ident-ends s))
    | inl ((name, next), p) ↦ absurd (ground arith)
  ]

  module _ (getenv : Text → Text) (printer : Printer F) (memory : Map (Value F)) where
    eval_path-ends : (text : Text) → eval_path F getenv printer memory text ≢ err out_of_fuel
    unfolding eval_path
    eval_path-ends text h =
        let path = trim_space text in
        elim (Result-cases (split_first_ident path)) [
          | inr (e, p) ↦ absurd (ground (arith, split_first_ident-ends path))
          | inl ((root, rest), p) ↦ elim (Bool-cases (is_empty path)) [
            | inl n ↦ absurd (ground arith)
            | inr n ↦ elim (Bool-cases (eqt root (codes "env"))) [
              | inl env ↦ eval_env-ends getenv rest (ground arith)
              | inr env ↦ elim (Option-cases (lookup root memory)) [
                | inl l ↦ absurd (ground arith)
                | inr (v, l) ↦ walk-ends (length rest) v rest (omega arith) (ground arith)
              ]
            ]
          ]
        ]

    opened-length : (c : ℕ) (s t : Text) → opened c s ≡ some t → length t ≤ length s
    unfolding opened cut_prefix
    opened-length c [] t h = absurd (ground arith)
    opened-length c (d ∷ s) t h = ground arith

    expand_from-ends :
        (fuel : ℕ) (s : Text)
        → length s ≤ fuel
        → expand_from F getenv printer memory fuel s ≢ err out_of_fuel
    unfolding expand_from
    expand_from-ends zero [] enough h = absurd (ground arith)
    expand_from-ends (suc fuel) [] enough h = absurd (ground arith)
    expand_from-ends zero (c ∷ s) enough h = absurd (omega arith)
    expand_from-ends (suc fuel) (c ∷ s) enough h = elim (Option-cases (opened c s)) [
      | inl o ↦ elim (Result-cases (expand_from F getenv printer memory fuel s)) [
        | inl (out, q) ↦ absurd (ground arith)
        | inr (e, q) ↦ expand_from-ends fuel s (omega arith) (ground arith)
      ]
      | inr (t, o) ↦ elim (Option-cases (cut_byte b'}' t)) [
        | inl cut ↦ absurd (ground arith)
        | inr ((path, next), cut) ↦ elim (Result-cases (eval_path F getenv printer memory path)) [
          | inr (e, p) ↦ eval_path-ends path (ground arith)
          | inl (v, p) ↦ elim (Result-cases (expand_from F getenv printer memory fuel next)) [
            | inl (out, q) ↦ absurd (ground arith)
            | inr (e, q) ↦
                let shorter = cut_byte-length b'}' t path next cut in
                let inner = opened-length c s t o in
                expand_from-ends fuel next (omega arith) (ground arith)
          ]
        ]
      ]
    ]

    -- The expansion of a word ends, in a text or in an error of the source's own, whatever the word
    -- and whatever the variables hold: as many rounds as it has bytes are enough, and so for the
    -- paths inside.
    pub expand_token_ends :
        (tok : Text) → expand_token F getenv printer memory tok ≢ err out_of_fuel
    unfolding expand_token
    expand_token_ends tok h = elim (Bool-cases (contains tok (codes "${"))) [
      | inr n ↦ absurd (ground arith)
      | inl n ↦ expand_from-ends (length tok) tok (omega arith) (ground arith)
    ]
