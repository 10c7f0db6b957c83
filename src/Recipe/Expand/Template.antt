-- ===== src/Recipe/Expand/Template.antt =====
-- A word as literal text and references, and what pkg/recipe/expand.go makes of it.
use servers.Base.{
  ℕ, zero, suc, ◌≤◌, ◌≡◌, refl, sym, ◌∙◌, false, List, [], ◌∷◌, ◌++◌, none, some, Text, Map, codes,
  contains, has_prefix, cut_byte, cut_prefix, length, ◌==◌, Result, ok, err, ◌>>=◌, arith,
  Bool-cases, Option-cases, Result-cases, inl, inr, All, length-append,
}
use servers.Recipe.Value.{Value, Printer, stringify}
use servers.Recipe.Expand.{ExpandError, unterminated, eval_path, opened, expand_from, expand_token}
use servers.Recipe.Expand.Ends.{cut_byte-length}

pub data Piece : Type 0 where
  words ref : Text → Piece

abbrev pub Without : ℕ → Text → Type 0
Without b [] = Unit
Without b (c ∷ s) = ((c == b) ≡ false) × Without b s

-- Literal text has no dollar sign, a path no closing brace.
abbrev pub IsPiece : Piece → Type 0
IsPiece (words t) = Without b'$' t
IsPiece (ref path) = Without b'}' path

abbrev pub render : List Piece → Text
render [] = []
render (words t ∷ ps) = t ++ render ps
render (ref path ∷ ps) = b'$' ∷ b'{' ∷ (path ++ (b'}' ∷ render ps))

pub cut_byte-append :
    (b : ℕ) (s rest : Text) → Without b s → cut_byte b (s ++ (b ∷ rest)) ≡ some (s, rest)
unfolding cut_byte
cut_byte-append b [] rest h = ground arith
cut_byte-append b (c ∷ s) rest h = rw (h.0, cut_byte-append b s rest h.1)

opened-shorter : (c : ℕ) (s t : Text) → opened c s ≡ some t → length t ≤ length s
unfolding opened cut_prefix
opened-shorter c [] t h = absurd (ground arith)
opened-shorter c (d ∷ s) t h = ground arith

opened_of_contains :
    (c : ℕ) (s : Text)
    → contains (c ∷ s) (codes "${") ≡ false
    → (opened c s ≡ none) × (contains s (codes "${") ≡ false)
unfolding opened contains has_prefix cut_prefix
opened_of_contains c [] h = (ground arith, ground arith)
opened_of_contains c (d ∷ s) h = (ground arith, ground arith)

module _ (F : Type 0) (getenv : Text → Text) (printer : Printer F) (memory : Map (Value F)) where
  abbrev expand : ℕ → Text → Result ExpandError Text
  expand = expand_from F getenv printer memory

  abbrev path_value : Text → Result ExpandError (Value F)
  path_value = eval_path F getenv printer memory

  -- The pieces, one after the other; the first error is the result.
  abbrev pub expanded : List Piece → Result ExpandError Text
  expanded [] = ok []
  expanded (words t ∷ ps) = expanded ps >>= λ out. ok (t ++ out)
  expanded (ref path ∷ ps) = do
    v ← path_value path
    out ← expanded ps
    ok (stringify F printer v ++ out)

  expand_from-shut :
      (f c : ℕ) (s : Text)
      → opened c s ≡ none
      → expand (suc f) (c ∷ s) ≡ (expand f s >>= λ out. ok (c ∷ out))
  unfolding expand_from
  expand_from-shut f c s o = rw (o, expand_from)

  expand_from-unclosed :
      (f c : ℕ) (s t : Text)
      → opened c s ≡ some t
      → cut_byte b'}' t ≡ none
      → expand (suc f) (c ∷ s) ≡ err unterminated
  unfolding expand_from
  expand_from-unclosed f c s t o cut = rw (o, expand_from) (rw cut)

  expand_from-closed :
      (f c : ℕ) (s t path next : Text)
      → opened c s ≡ some t
      → cut_byte b'}' t ≡ some (path, next)
      → expand (suc f) (c ∷ s)
        ≡ (do v ← path_value path; out ← expand f next; ok (stringify F printer v ++ out))
  unfolding expand_from
  expand_from-closed f c s t path next o cut = rw (o, expand_from) (rw cut)

  -- More fuel than the length changes nothing.
  expand_from-fuel : (f g : ℕ) (s : Text) → length s ≤ f → length s ≤ g → expand f s ≡ expand g s
  expand_from-fuel zero zero s a b = refl
  expand_from-fuel (suc f) zero [] a b = unfold expand_from in refl
  expand_from-fuel zero (suc g) [] a b = unfold expand_from in refl
  expand_from-fuel (suc f) (suc g) [] a b = unfold expand_from in refl
  expand_from-fuel (suc f) zero (c ∷ s) a b = absurd (omega arith)
  expand_from-fuel zero (suc g) (c ∷ s) a b = absurd (omega arith)
  expand_from-fuel (suc f) (suc g) (c ∷ s) a b = elim (Option-cases (opened c s)) [
    | inl o ↦
        expand_from-shut f c s o
        ∙ rw (expand_from-fuel f g s (omega arith) (omega arith)) (sym (expand_from-shut g c s o))
    | inr (t, o) ↦ elim (Option-cases (cut_byte b'}' t)) [
      | inl cut ↦ expand_from-unclosed f c s t o cut ∙ sym (expand_from-unclosed g c s t o cut)
      | inr ((path, next), cut) ↦
          let inner = opened-shorter c s t o in
          let shorter = cut_byte-length b'}' t path next cut in
          expand_from-closed f c s t path next o cut
          ∙ rw (expand_from-fuel f g next (omega arith) (omega arith))
              (sym (expand_from-closed g c s t path next o cut))
    ]
  ]

  -- The expansion of a whole text.
  abbrev whole : Text → Result ExpandError Text
  whole s = expand (length s) s

  -- A word without `${` is its own expansion.
  whole-plain : (s : Text) → contains s (codes "${") ≡ false → whole s ≡ ok s
  whole-plain [] h = unfold expand_from in refl
  whole-plain (c ∷ s) h =
      let (o, rest) = opened_of_contains c s h in
      expand_from-shut (length s) c s o ∙ rw (whole-plain s rest)

  whole-words :
      (t rest : Text) → Without b'$' t → whole (t ++ rest) ≡ (whole rest >>= λ out. ok (t ++ out))
  whole-words [] rest h = elim (Result-cases (whole rest)) [
    | inl (out, e) ↦ rw e
    | inr (x, e) ↦ rw e
  ]
  whole-words (c ∷ t) rest h =
      let o : opened c (t ++ rest) ≡ none = unfold opened in rw h.0 in
      expand_from-shut (length (t ++ rest)) c (t ++ rest) o
      ∙ rw (whole-words t rest h.1)
          (elim (Result-cases (whole rest)) [ inl (out, e) ↦ rw e | inr (x, e) ↦ rw e ])

  whole-ref :
      (path rest : Text)
      → Without b'}' path
      → whole (b'$' ∷ b'{' ∷ (path ++ (b'}' ∷ rest)))
        ≡ (do v ← path_value path; out ← whole rest; ok (stringify F printer v ++ out))
  whole-ref path rest h =
      let tail = path ++ (b'}' ∷ rest) in
      let o : opened b'$' (b'{' ∷ tail) ≡ some tail = unfold opened cut_prefix in refl in
      let longer = length-append path (b'}' ∷ rest) in
      expand_from-closed (length (b'{' ∷ tail)) b'$' (b'{' ∷ tail) tail path rest o
        (cut_byte-append b'}' path rest h)
      ∙ rw (expand_from-fuel (length (b'{' ∷ tail)) (length rest) rest (omega arith) (omega arith))

  whole-render : (ps : List Piece) → All IsPiece ps → whole (render ps) ≡ expanded ps
  whole-render [] h = unfold expand_from in refl
  whole-render (words t ∷ ps) h = whole-words t (render ps) h.0 ∙ rw (whole-render ps h.1)
  whole-render (ref path ∷ ps) h = whole-ref path (render ps) h.0 ∙ rw (whole-render ps h.1)

  -- A word that is made of literal text without a dollar sign and of references whose paths have no
  -- closing brace is expanded to the texts, with the values of the paths printed in their places, in
  -- order; or fails with the error of the first path that has no value.
  pub expand_token-render :
      (ps : List Piece)
      → All IsPiece ps
      → expand_token F getenv printer memory (render ps) ≡ expanded ps
  unfolding expand_token
  expand_token-render ps h = elim (Bool-cases (contains (render ps) (codes "${"))) [
    | inl c ↦ rw c (whole-render ps h)
    | inr c ↦ rw c (sym (whole-plain (render ps) c) ∙ whole-render ps h)
  ]
