-- ===== src/Recipe/Tokens/RoundTrip.antt =====
-- A printer of recipes, one statement on a line with every word in quotes, and what the scanner of
-- pkg/recipe/parser.go makes of its lines.
use servers.Base.{
  ℕ, suc, ◌≡◌, refl, ◌∙◌, Bool, true, false, not, ◌&&◌, ◌||◌, List, [], ◌∷◌, ◌++◌, Text, codes, eqt,
  is_empty, ◌==◌, if◌then◌else◌, ok, arith, All, Bool-cases, map, inl, inr, append-nil,
  append_assoc, ==_iff, length, drop-length_append,
}
use servers.Recipe.Flow.{
  if_marker, elseif_marker, else_marker, end_marker, Statement, validate_control_flow,
}
use servers.Recipe.Tokens.{
  is_var_name, command, marker, with_capture, normal_statement, if_header, else_if_header,
  else_header, header_statement, Scanner, flush_tok, scan_line, scan_lines, finish,
  parse_statements,
}

-- The rest of a word in double quotes; a double quote stands in single quotes.
body : Text → Text → Text
body [] rest = b'"' ∷ rest
body (c ∷ s) rest =
    if c == b'"' then b'"' ∷ b'\'' ∷ b'"' ∷ b'\'' ∷ b'"' ∷ body s rest else c ∷ body s rest

unfoldable pub render_words : List Text → Text → Text
unfolding body
render_words [] rest = rest
render_words (w ∷ ws) rest = b'"' ∷ body w (b' ' ∷ render_words ws rest)

pub data Source : Type 0 where
  run : Text → List Text → Source
  store : Text → Text → List Text → Source
  opens : Text → List Text → Source
  turns : Text → List Text → Source
  otherwise closes : Source

-- A command that is no header and no capture.
unfoldable pub is_plain : Text → List Text → Bool
is_plain word (sign ∷ third ∷ words) =
    not (eqt word (codes "IF") || eqt word (codes "ELSE"))
    && not (eqt sign (codes ":=") && is_var_name word)
is_plain word _ = not (eqt word (codes "IF") || eqt word (codes "ELSE"))

abbrev pub IsSource : Source → Type 0
IsSource (run w ws) = is_plain w ws ≡ true
IsSource (store name w ws) =
    (is_var_name name ≡ true) × ((eqt name (codes "IF") || eqt name (codes "ELSE")) ≡ false)
IsSource _ = Unit

abbrev pub render : Source → Text
render (run w ws) = render_words (w ∷ ws) (codes ";")
render (store name w ws) = render_words (name ∷ codes ":=" ∷ w ∷ ws) (codes ";")
render (opens w ws) = render_words (codes "IF" ∷ w ∷ ws) (codes "BEGIN")
render (turns w ws) = render_words (codes "ELSE" ∷ codes "IF" ∷ w ∷ ws) (codes "BEGIN")
render otherwise = render_words (codes "ELSE" ∷ []) (codes "BEGIN")
render closes = codes "END"

abbrev pub meaning : Text → ℕ → Source → Statement
meaning path line (run w ws) = command [] (w ∷ ws) path line
meaning path line (store name w ws) = command name (w ∷ ws) path line
meaning path line (opens w ws) = marker if_marker (w ∷ ws) path line
meaning path line (turns w ws) = marker elseif_marker (w ∷ ws) path line
meaning path line otherwise = marker else_marker [] path line
meaning path line closes = marker end_marker [] path line

-- The statements, on lines that follow one another.
abbrev pub meanings : Text → ℕ → List Source → List Statement
meanings path line [] = []
meanings path line (s ∷ ss) = meaning path line s ∷ meanings path (suc line) ss

-- Between tokens, and inside a token that has a quoted part.
abbrev idle : List Statement → List Text → ℕ → Scanner
idle out argv line = record {
  out = out;
  argv = argv;
  tok = [];
  in_tok = false;
  tok_quoted = false;
  quote = 0;
  stmt_line = line;
}

abbrev inside : List Statement → List Text → Text → ℕ → ℕ → Scanner
inside out argv tok line quote = record {
  out = out;
  argv = argv;
  tok = tok;
  in_tok = true;
  tok_quoted = true;
  quote = quote;
  stmt_line = line;
}

module _ (path : Text) (n : ℕ) (out : List Statement) where
  scan_line-byte :
      (c : ℕ) (rest tok : Text) (argv : List Text) (l : ℕ)
      → (c == b'"') ≡ false
      → scan_line path n (c ∷ rest) (inside out argv tok l b'"')
        ≡ scan_line path n rest (inside out argv (tok ++ (c ∷ [])) l b'"')
  unfolding scan_line
  scan_line-byte c rest tok argv l e = rw (e, scan_line)

  scan_line-body :
      (t rest tok : Text) (argv : List Text) (l : ℕ)
      → scan_line path n (body t rest) (inside out argv tok l b'"')
        ≡ scan_line path n rest (inside out argv (tok ++ t) l 0)
  unfolding body scan_line
  scan_line-body [] rest tok argv l = rw append-nil
  scan_line-body (c ∷ s) rest tok argv l = elim (Bool-cases (c == b'"')) [
    | inl e ↦
        let same : c ≡ b'"' = (==_iff c b'"').0 e in
        rw same (scan_line-body s rest (tok ++ (b'"' ∷ [])) argv l ∙ rw append_assoc)
    | inr e ↦ rw e (
        scan_line-byte c (body s rest) tok argv l e
        ∙ scan_line-body s rest (tok ++ (c ∷ [])) argv l
        ∙ rw append_assoc)
  ]

  scan_line-word :
      (w rest : Text) (argv : List Text) (l : ℕ)
      → scan_line path n (b'"' ∷ body w (b' ' ∷ rest)) (idle out argv l)
        ≡ scan_line path n rest (idle out (argv ++ (w ∷ [])) (if is_empty argv then n else l))
  unfolding scan_line
  scan_line-word w rest argv l =
      scan_line-body w (b' ' ∷ rest) [] argv (if is_empty argv then n else l)

  scan_line-words :
      (ws : List Text) (rest w : Text) (argv : List Text) (l : ℕ)
      → scan_line path n (render_words ws rest) (idle out (w ∷ argv) l)
        ≡ scan_line path n rest (idle out (w ∷ (argv ++ ws)) l)
  unfolding render_words is_empty
  scan_line-words [] rest w argv l = rw append-nil
  scan_line-words (v ∷ ws) rest w argv l =
      scan_line-word v (render_words ws rest) (w ∷ argv) l
      ∙ scan_line-words ws rest w (argv ++ (v ∷ [])) l
      ∙ rw append_assoc

  scan_line-render_words :
      (w : Text) (ws : List Text) (rest : Text) (l : ℕ)
      → scan_line path n (render_words (w ∷ ws) rest) (idle out [] l)
        ≡ scan_line path n rest (idle out (w ∷ ws) n)
  unfolding render_words is_empty
  scan_line-render_words w ws rest l =
      scan_line-word w (render_words ws rest) [] l ∙ scan_line-words ws rest w [] n

  scan_line-semi :
      (w : Text) (ws : List Text) (st : Statement)
      → normal_statement path n (w ∷ ws) ≡ ok st
      → scan_line path n (codes ";") (idle out (w ∷ ws) n) ≡ ok (idle (out ++ (st ∷ [])) [] n)
  unfolding scan_line is_empty
  scan_line-semi w ws st h = rw h

  scan_line-begin :
      (w : Text) (ws : List Text) (st : Statement)
      → header_statement path n (w ∷ ws) ≡ ok st
      → scan_line path n (codes "BEGIN") (idle out (w ∷ ws) n) ≡ ok (idle (out ++ (st ∷ [])) [] n)
  unfolding scan_line is_empty eqt
  scan_line-begin w ws st h = rw h

  plain-normal_statement :
      (w : Text) (ws : List Text)
      → is_plain w ws ≡ true
      → normal_statement path n (w ∷ ws) ≡ ok (command [] (w ∷ ws) path n)
  unfolding is_plain normal_statement with_capture
  plain-normal_statement w [] h = ground arith
  plain-normal_statement w (a ∷ []) h = ground arith
  plain-normal_statement w (a ∷ b ∷ ws) h = ground arith

  store-normal_statement :
      (name w : Text) (ws : List Text)
      → is_var_name name ≡ true
      → (eqt name (codes "IF") || eqt name (codes "ELSE")) ≡ false
      → normal_statement path n (name ∷ codes ":=" ∷ w ∷ ws) ≡ ok (command name (w ∷ ws) path n)
  unfolding normal_statement with_capture eqt
  store-normal_statement name w ws v h = rw (h, v)

  scan_line-render :
      (s : Source) (l : ℕ)
      → IsSource s
      → scan_line path n (render s) (idle out [] l)
        ≡ ok (idle (out ++ (meaning path n s ∷ [])) [] n)
  unfolding header_statement if_header else_header else_if_header eqt
  scan_line-render (run w ws) l h =
      scan_line-render_words w ws (codes ";") l
      ∙ scan_line-semi w ws _ (plain-normal_statement w ws h)
  scan_line-render (store name w ws) l h =
      scan_line-render_words name (codes ":=" ∷ w ∷ ws) (codes ";") l
      ∙ scan_line-semi name (codes ":=" ∷ w ∷ ws) _ (store-normal_statement name w ws h.0 h.1)
  scan_line-render (opens w ws) l h =
      scan_line-render_words (codes "IF") (w ∷ ws) (codes "BEGIN") l
      ∙ scan_line-begin (codes "IF") (w ∷ ws) _ refl
  scan_line-render (turns w ws) l h =
      scan_line-render_words (codes "ELSE") (codes "IF" ∷ w ∷ ws) (codes "BEGIN") l
      ∙ scan_line-begin (codes "ELSE") (codes "IF" ∷ w ∷ ws) _ refl
  scan_line-render otherwise l h =
      scan_line-render_words (codes "ELSE") [] (codes "BEGIN") l
      ∙ scan_line-begin (codes "ELSE") [] _ refl
  scan_line-render closes l h = scan_line-end l
    where
      scan_line-end :
          (l : ℕ)
          → scan_line path n (codes "END") (idle out [] l)
            ≡ ok (idle (out ++ (marker end_marker [] path n ∷ [])) [] n)
      scan_line-end l = unfold scan_line is_empty eqt in refl

scan_lines-render :
    (path : Text) (ss : List Source) (n l : ℕ) (out : List Statement)
    → All IsSource ss
    → (l' : ℕ) × (scan_lines path n (map render ss) (idle out [] l)
        ≡ ok (idle (out ++ meanings path n ss) [] l'))
unfolding scan_lines
scan_lines-render path [] n l out h = (l, rw append-nil)
scan_lines-render path (s ∷ ss) n l out h =
    let (l', rest) = scan_lines-render path ss (suc n) n (out ++ (meaning path n s ∷ [])) h.1 in
    (l', rw (scan_line-render path n out s l h.0) (rest ∙ rw append_assoc))

-- Statements that are printed one on a line, every word in quotes, below any header, are parsed back
-- as they were, each with its own line: whatever bytes their words hold, spaces, quotes, semicolons
-- and comment signs among them, provided that a command does not start with IF or ELSE, nor look like
-- a capture, that a capture has a variable's name, and that the blocks pass the check.
pub parse_statements-render :
    (path : Text) (header : List Text) (ss : List Source)
    → All IsSource ss
    → validate_control_flow (meanings path (suc (length header)) ss) ≡ ok tt
    → parse_statements path (header ++ map render ss) (length header)
      ≡ ok (meanings path (suc (length header)) ss)
unfolding parse_statements finish flush_tok is_empty
parse_statements-render path header ss h valid =
    let (l, scanned) = scan_lines-render path ss (suc (length header)) 0 [] h in
    rw (drop-length_append header (map render ss)) (rw scanned (rw valid))
