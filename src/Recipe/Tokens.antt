-- ===== src/Recipe/Tokens.antt =====
-- pkg/recipe/parser.go: the scanner that turns the lines of a recipe into statements. `segErr`, which
-- ends the scan at once, is the error of a `Result`.
pub mod Sound
pub mod RoundTrip
use servers.Base.{
  ℕ, zero, suc, ◌+◌, Bool, true, false, not, ◌&&◌, ◌||◌, List, [], ◌∷◌, ◌++◌, Text, codes, eqt,
  one_of, is_empty, length, leb, ◌==◌, if◌then◌else◌, Result, ok, err, ◌>>=◌, ◌>>◌, guard, drop,
}
use servers.Recipe.Flow.{
  Control, normal, if_marker, elseif_marker, else_marker, end_marker, Statement, FlowError,
  validate_control_flow,
}

pub data Reason : Type 0 where
  begin_alone if_alone else_if_alone after_else not_a_header : Reason
  end_after_words not_opened unterminated_quote not_terminated : Reason

-- A reason with its line, or what the check of the blocks says.
pub data ParseError : Type 0 where
  at : ℕ → Reason → ParseError
  flow : FlowError → ParseError

abbrev pub is_letter : ℕ → Bool
is_letter c = c == b'_' || ((leb b'a' c && leb c b'z') || (leb b'A' c && leb c b'Z'))

abbrev pub is_digit : ℕ → Bool
is_digit c = leb b'0' c && leb c b'9'

unfoldable pub is_name_rest : Text → Bool
is_name_rest [] = true
is_name_rest (c ∷ s) = (is_letter c || is_digit c) && is_name_rest s

unfoldable pub is_var_name : Text → Bool
unfolding is_name_rest
is_var_name [] = false
is_var_name (c ∷ s) = is_letter c && is_name_rest s

abbrev pub marker : Control → List Text → Text → ℕ → Statement
marker control cond path line = record {
  line = line;
  argv = [];
  capture = [];
  src = path;
  control = control;
  cond = cond;
}

abbrev pub command : Text → List Text → Text → ℕ → Statement
command capture argv path line = record {
  line = line;
  argv = argv;
  capture = capture;
  src = path;
  control = normal;
  cond = [];
}

-- The form `name := command`.
unfoldable pub with_capture : Text → ℕ → List Text → Statement
unfolding is_var_name
with_capture path line (name ∷ sign ∷ word ∷ words) =
    if eqt sign (codes ":=") && is_var_name name
    then command name (word ∷ words) path line
    else command [] (name ∷ sign ∷ word ∷ words) path line
with_capture path line argv = command [] argv path line

-- `normalStatement`; the words are some.
unfoldable pub normal_statement : Text → ℕ → List Text → Result ParseError Statement
unfolding with_capture
normal_statement path line [] = ok (command [] [] path line)
normal_statement path line (word ∷ words) =
    if eqt word (codes "IF") || eqt word (codes "ELSE")
    then err (at line not_opened)
    else ok (with_capture path line (word ∷ words))

unfoldable pub if_header : Text → ℕ → List Text → Result ParseError Statement
if_header path line [] = err (at line if_alone)
if_header path line (word ∷ words) = ok (marker if_marker (word ∷ words) path line)

unfoldable pub else_if_header : Text → ℕ → List Text → Result ParseError Statement
else_if_header path line [] = err (at line else_if_alone)
else_if_header path line (word ∷ words) = ok (marker elseif_marker (word ∷ words) path line)

unfoldable pub else_header : Text → ℕ → List Text → Result ParseError Statement
unfolding else_if_header
else_header path line [] = ok (marker else_marker [] path line)
else_header path line (word ∷ words) =
    if eqt word (codes "IF") then else_if_header path line words else err (at line after_else)

unfoldable pub header_statement : Text → ℕ → List Text → Result ParseError Statement
unfolding if_header else_header
header_statement path line [] = err (at line begin_alone)
header_statement path line (word ∷ words) =
    if eqt word (codes "IF")
    then if_header path line words
    else if eqt word (codes "ELSE")
    then else_header path line words
    else err (at line not_a_header)

-- The variables of `parseStatements`. No quote is 0, as in the source.
pub record Scanner : Type 0 where
  pub out : List Statement
  pub argv : List Text
  pub tok : Text
  pub in_tok : Bool
  pub tok_quoted : Bool
  pub quote : ℕ
  pub stmt_line : ℕ

pub data TermKind : Type 0 where
  semi begin end : TermKind

abbrev pub emitted : Scanner → Statement → Scanner
emitted p st = record p { out = p.out ++ (st ∷ []); argv = [] }

unfoldable pub emit : Text → TermKind → Scanner → Result ParseError Scanner
unfolding header_statement normal_statement
emit path begin p = do st ← header_statement path p.stmt_line p.argv; ok (emitted p st)
emit path end p = do
  guard (is_empty p.argv) (at p.stmt_line end_after_words)
  ok (emitted p (marker end_marker [] path p.stmt_line))
emit path semi p =
    if is_empty p.argv
    then ok p
    else (normal_statement path p.stmt_line p.argv >>= λ st. ok (emitted p st))

-- The token is complete: a keyword that is not quoted ends the statement.
unfoldable pub flush_tok : Text → Scanner → Result ParseError Scanner
unfolding emit
flush_tok path p =
    let q : Scanner = record p { tok = []; in_tok = false; tok_quoted = false } in
    if not p.in_tok
    then ok p
    else if not p.tok_quoted && eqt p.tok (codes "BEGIN")
    then emit path begin q
    else if not p.tok_quoted && eqt p.tok (codes "END")
    then emit path end q
    else ok (record q { argv = p.argv ++ (p.tok ∷ []) })

unfoldable pub start_tok : ℕ → Scanner → Scanner
start_tok line p =
    if p.in_tok
    then p
    else record p { in_tok = true; stmt_line = if is_empty p.argv then line else p.stmt_line }

abbrev pub write_byte : ℕ → Scanner → Scanner
write_byte c p = record p { tok = p.tok ++ (c ∷ []) }

-- One byte of a line that opens no comment.
unfoldable pub step : Text → ℕ → ℕ → Scanner → Result ParseError Scanner
unfolding flush_tok start_tok emit
step path line c p =
    if not (p.quote == 0)
    then ok (if c == p.quote then record p { quote = 0 } else write_byte c p)
    else if c == b' ' || c == b'\t'
    then flush_tok path p
    else if c == b';'
    then (flush_tok path p >>= emit path semi)
    else if c == b'"' || c == b'\''
    then ok (record (start_tok line p) { tok_quoted = true; quote = c })
    else ok (write_byte c (start_tok line p))

-- At the end of a line: a quote that is open goes on.
unfoldable pub end_line : Text → Scanner → Result ParseError Scanner
unfolding flush_tok
end_line path p = if not (p.quote == 0) then ok (write_byte b'\n' p) else flush_tok path p

unfoldable pub scan_line : Text → ℕ → Text → Scanner → Result ParseError Scanner
unfolding step end_line
scan_line path line [] p = end_line path p
scan_line path line (c ∷ s) p =
    if p.quote == 0 && c == b'#'
    then end_line path p
    else (step path line c p >>= scan_line path line s)

unfoldable pub scan_lines : Text → ℕ → List Text → Scanner → Result ParseError Scanner
unfolding scan_line
scan_lines path line [] p = ok p
scan_lines path line (s ∷ lines) p = scan_line path line s p >>= scan_lines path (suc line) lines

abbrev pub initial : Scanner
initial = record {
  out = [];
  argv = [];
  tok = [];
  in_tok = false;
  tok_quoted = false;
  quote = 0;
  stmt_line = 0;
}

-- What is left to do after the last line.
unfoldable pub finish : Text → Scanner → Result ParseError (List Statement)
unfolding flush_tok
finish path p = do
  guard (p.quote == 0) (at p.stmt_line unterminated_quote)
  q ← flush_tok path p
  guard (is_empty q.argv) (at q.stmt_line not_terminated)
  elim (validate_control_flow q.out) [ ok _ ↦ ok q.out | err e ↦ err (flow e) ]

unfoldable pub parse_statements : Text → List Text → ℕ → Result ParseError (List Statement)
unfolding scan_lines finish
parse_statements path lines start =
    scan_lines path (suc start) (drop start lines) initial >>= finish path
