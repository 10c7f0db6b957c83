-- ===== src/Recipe/Tokens/Sound.antt =====
-- What the scanner of recipes gives: the shape of every statement.
use servers.Base.{
  ℕ, suc, ◌≡◌, ◌⊎◌, refl, inl, inr, subst, ◌>>=◌, true, false, not, ◌&&◌, ◌||◌, List, [], ◌∷◌, ◌++◌,
  Text, codes, eqt, is_empty, ◌==◌, ok, >>=-eq-ok, arith, All, Bool-cases, drop, Result-cases,
}
use servers.Recipe.Flow.{
  Control, normal, if_marker, elseif_marker, else_marker, end_marker, Statement,
  validate_control_flow,
}
use servers.Recipe.Tokens.{
  is_var_name, marker, with_capture, normal_statement, if_header, else_if_header, else_header,
  header_statement, Scanner, TermKind, semi, begin, end, emitted, emit, flush_tok, start_tok, step,
  end_line, scan_line, scan_lines, initial, finish, parse_statements,
}

-- What each kind of statement carries.
abbrev pub Carries : Control → Statement → Type 0
Carries normal st =
    (is_empty st.argv ≡ false)
    × (st.cond ≡ [])
    × ((st.capture ≡ []) ⊎ (is_var_name st.capture ≡ true))
Carries if_marker st = (st.argv ≡ []) × (is_empty st.cond ≡ false)
Carries elseif_marker st = (st.argv ≡ []) × (is_empty st.cond ≡ false)
Carries else_marker st = (st.argv ≡ []) × (st.cond ≡ [])
Carries end_marker st = (st.argv ≡ []) × (st.cond ≡ [])

pub record IsStatement (path : Text) (st : Statement) : Type 0 where
  pub carries : Carries st.control st
  pub named : st.src ≡ path

All-snoc {ℓ κ} :
    {A : Type ℓ} (P : A → Type κ) (xs : List A) (x : A) → All P xs → P x → All P (xs ++ (x ∷ []))
All-snoc P [] x a h = (h, tt)
All-snoc P (y ∷ xs) x a h = (a.0, All-snoc P xs x a.1 h)

module _ (path : Text) where
  abbrev IsFine : Scanner → Type 0
  IsFine p = All (IsStatement path) p.out

  with_capture_sound :
      (line : ℕ) (word : Text) (words : List Text)
      → IsStatement path (with_capture path line (word ∷ words))
  unfolding with_capture is_empty
  with_capture_sound line word [] = record { carries = (refl, refl, inl refl); named = refl }
  with_capture_sound line word (sign ∷ []) = record {
    carries = (refl, refl, inl refl);
    named = refl;
  }
  with_capture_sound line word (sign ∷ third ∷ words) =
      elim (Bool-cases (eqt sign (codes ":=") && is_var_name word)) [
        | inl e ↦ rw e (record { carries = (refl, refl, inr (ground arith)); named = refl })
        | inr e ↦ rw e (record { carries = (refl, refl, inl refl); named = refl })
      ]

  normal_statement_sound :
      (line : ℕ) (word : Text) (words : List Text) (st : Statement)
      → normal_statement path line (word ∷ words) ≡ ok st
      → IsStatement path st
  unfolding normal_statement
  normal_statement_sound line word words st h =
      elim (Bool-cases (eqt word (codes "IF") || eqt word (codes "ELSE"))) [
        | inl e ↦ absurd (ground arith)
        | inr e ↦
            let same : with_capture path line (word ∷ words) ≡ st = ground arith in
            subst (IsStatement path) same (with_capture_sound line word words)
      ]

  if_header_sound :
      (line : ℕ) (words : List Text) (st : Statement)
      → if_header path line words ≡ ok st
      → IsStatement path st
  unfolding if_header is_empty
  if_header_sound line [] st h = absurd (ground arith)
  if_header_sound line (w ∷ ws) st h =
      let same : marker if_marker (w ∷ ws) path line ≡ st = ground arith in
      subst (IsStatement path) same (record { carries = (refl, refl); named = refl })

  else_header_sound :
      (line : ℕ) (words : List Text) (st : Statement)
      → else_header path line words ≡ ok st
      → IsStatement path st
  unfolding else_header else_if_header is_empty
  else_header_sound line [] st h =
      let same : marker else_marker [] path line ≡ st = ground arith in
      subst (IsStatement path) same (record { carries = (refl, refl); named = refl })
  else_header_sound line (a ∷ []) st h = absurd (ground arith)
  else_header_sound line (a ∷ b ∷ words) st h = elim (Bool-cases (eqt a (codes "IF"))) [
    | inr e ↦ absurd (ground arith)
    | inl e ↦
        let same : marker elseif_marker (b ∷ words) path line ≡ st = ground arith in
        subst (IsStatement path) same (record { carries = (refl, refl); named = refl })
  ]

  header_statement_sound :
      (line : ℕ) (words : List Text) (st : Statement)
      → header_statement path line words ≡ ok st
      → IsStatement path st
  unfolding header_statement
  header_statement_sound line [] st h = absurd (ground arith)
  header_statement_sound line (a ∷ words) st h = elim (Bool-cases (eqt a (codes "IF"))) [
    | inl e ↦ if_header_sound line words st (ground arith)
    | inr e ↦ elim (Bool-cases (eqt a (codes "ELSE"))) [
      | inl f ↦ else_header_sound line words st (ground arith)
      | inr f ↦ absurd (ground arith)
    ]
  ]

  -- A statement that is well formed joins those before it.
  emitted-IsFine :
      (p : Scanner) (st : Statement) → IsFine p → IsStatement path st → IsFine (emitted p st)
  emitted-IsFine p st f s = All-snoc (IsStatement path) p.out st f s

  emit_words :
      (p q : Scanner) (words : List Text)
      → p.argv ≡ words
      → emit path semi p ≡ ok q
      → IsFine p
      → IsFine q
  unfolding emit is_empty
  emit_words p q [] a h f = let same : p ≡ q = ground arith in subst IsFine same f
  emit_words p q (w ∷ ws) a h f = elim (Result-cases (normal_statement path p.stmt_line (w ∷ ws))) [
    | inr (e, bad) ↦ absurd (ground arith)
    | inl (st, good) ↦
        let same : emitted p st ≡ q = ground arith in
        subst IsFine same (emitted-IsFine p st f (normal_statement_sound p.stmt_line w ws st good))
  ]

  emit_sound : (t : TermKind) (p q : Scanner) → emit path t p ≡ ok q → IsFine p → IsFine q
  unfolding emit
  emit_sound semi p q h f = emit_words p q p.argv refl h f
  emit_sound begin p q h f =
      let (st, good, last) = >>=-eq-ok (header_statement path p.stmt_line p.argv) _ h in
      let same : emitted p st ≡ q = ground arith in
      subst IsFine same (emitted-IsFine p st f (header_statement_sound p.stmt_line p.argv st good))
  emit_sound end p q h f =
      let same : emitted p (marker end_marker [] path p.stmt_line) ≡ q = ground arith in
      subst IsFine same (emitted-IsFine p _ f (record { carries = (refl, refl); named = refl }))

  flush_tok_sound : (p q : Scanner) → flush_tok path p ≡ ok q → IsFine p → IsFine q
  unfolding flush_tok
  flush_tok_sound p q h f =
      let clear : Scanner = record p { tok = []; in_tok = false; tok_quoted = false } in
      elim (Bool-cases p.in_tok) [
        | inr i ↦ let same : p.out ≡ q.out = ground arith in subst (All (IsStatement path)) same f
        | inl i ↦ elim (Bool-cases (not p.tok_quoted && eqt p.tok (codes "BEGIN"))) [
          | inl b ↦ emit_sound begin clear q (ground arith) f
          | inr b ↦ elim (Bool-cases (not p.tok_quoted && eqt p.tok (codes "END"))) [
            | inl e ↦ emit_sound end clear q (ground arith) f
            | inr e ↦
                let same : p.out ≡ q.out = ground arith in subst (All (IsStatement path)) same f
          ]
        ]
      ]

  -- What changes nothing but the token keeps the statements.
  kept : (p q : Scanner) → p.out ≡ q.out → IsFine p → IsFine q
  kept p q same f = subst (All (IsStatement path)) same f

  step_sound : (line c : ℕ) (p q : Scanner) → step path line c p ≡ ok q → IsFine p → IsFine q
  unfolding step start_tok
  step_sound line c p q h f = elim (Bool-cases (p.quote == 0)) [
    | inr o ↦ kept p q (ground arith) f
    | inl o ↦ elim (Bool-cases (c == b' ' || c == b'\t')) [
      | inl b ↦ flush_tok_sound p q (ground arith) f
      | inr b ↦ elim (Bool-cases (c == b';')) [
        | inl s ↦
            let both : (flush_tok path p >>= emit path semi) ≡ ok q = ground arith in
            let (r, first, last) = >>=-eq-ok (flush_tok path p) (emit path semi) both in
            emit_sound semi r q last (flush_tok_sound p r first f)
        | inr s ↦ kept p q (ground arith) f
      ]
    ]
  ]

  end_line_sound : (p q : Scanner) → end_line path p ≡ ok q → IsFine p → IsFine q
  unfolding end_line
  end_line_sound p q h f = elim (Bool-cases (p.quote == 0)) [
    | inr o ↦ kept p q (ground arith) f
    | inl o ↦ flush_tok_sound p q (ground arith) f
  ]

  scan_line_sound :
      (line : ℕ) (s : Text) (p q : Scanner) → scan_line path line s p ≡ ok q → IsFine p → IsFine q
  unfolding scan_line
  scan_line_sound line [] p q h f = end_line_sound p q h f
  scan_line_sound line (c ∷ s) p q h f = elim (Bool-cases (p.quote == 0 && c == b'#')) [
    | inl k ↦ end_line_sound p q (ground arith) f
    | inr k ↦
        let both : (step path line c p >>= scan_line path line s) ≡ ok q = ground arith in
        let (r, first, last) = >>=-eq-ok (step path line c p) (scan_line path line s) both in
        scan_line_sound line s r q last (step_sound line c p r first f)
  ]

  scan_lines_sound :
      (line : ℕ) (lines : List Text) (p q : Scanner)
      → scan_lines path line lines p ≡ ok q
      → IsFine p
      → IsFine q
  unfolding scan_lines
  scan_lines_sound line [] p q h f = kept p q (ground arith) f
  scan_lines_sound line (s ∷ lines) p q h f =
      let (r, first, last) = >>=-eq-ok (scan_line path line s p) _ h in
      scan_lines_sound (suc line) lines r q last (scan_line_sound line s p r first f)

  -- What the end of the scan takes out of it.
  finish_inv :
      (p : Scanner) (sts : List Statement)
      → finish path p ≡ ok sts
      → (q : Scanner) × (flush_tok path p ≡ ok q)
        × (q.out ≡ sts)
        × (validate_control_flow sts ≡ ok tt)
  unfolding finish
  finish_inv p sts h = elim (Bool-cases (p.quote == 0)) [
    | inr o ↦ absurd (ground arith)
    | inl o ↦ elim (Result-cases (flush_tok path p)) [
      | inr (e, bad) ↦ absurd (ground arith)
      | inl (q, flushed) ↦ elim (Bool-cases (is_empty q.argv)) [
        | inr w ↦ absurd (ground arith)
        | inl w ↦ elim (Result-cases (validate_control_flow q.out)) [
          | inr (e, v) ↦ absurd (ground arith)
          | inl (done, v) ↦
              let same : q.out ≡ sts = ground arith in
              (q, flushed, same, subst (λ out. validate_control_flow out ≡ ok tt) same v)
        ]
      ]
    ]
  ]

-- Every statement of a recipe that parses is either a command, of one word at least, whose capture is
-- none or a variable's name, or a marker without words, which has a condition exactly if it is an IF
-- or an ELSE IF; it names its file; and the markers pass the check of the blocks.
pub parse_statements_sound :
    (path : Text) (lines : List Text) (start : ℕ) (sts : List Statement)
    → parse_statements path lines start ≡ ok sts
    → All (IsStatement path) sts × (validate_control_flow sts ≡ ok tt)
unfolding parse_statements
parse_statements_sound path lines start sts h =
    let (p, scanned, last) =
      >>=-eq-ok (scan_lines path (suc start) (drop start lines) initial) (finish path) h in
    let (q, flushed, same, valid) = finish_inv path p sts last in
    (
      subst (All (IsStatement path)) same (
          flush_tok_sound path p q flushed
            (scan_lines_sound path (suc start) (drop start lines) initial p scanned tt)),
      valid,
    )
