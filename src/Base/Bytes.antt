-- ===== src/Base/Bytes.antt =====
-- Go strings as lists of bytes, and the functions of Go's `strings` package that the code calls.
-- The case maps and `TrimSpace` treat ASCII, and leave other bytes alone.
use Prim.Native.Char.{code}
use Prim.Native.String.{String}
use Prim.Native.Nat.{ℕ, ◌+◌, ◌-◌}
use mathlib.Core.Path.{◌≡◌, refl}
use mathlib.Core.Logic.{◌↔◌}
use mathlib.Core.Bool.{Bool, true, false, not, ◌&&◌, ◌||◌}
use mathlib.Core.List.{List, [], ◌∷◌, ◌++◌, reverse}
use mathlib.Core.Option.{Option, none, some}
use native.Mathlib.Omega.{arith}
use servers.Base.Tests.{leb, ◌==◌, if◌then◌else◌}

abbrev pub Text : Type 0
Text = List ℕ

-- The bytes of an ASCII literal.
abbrev pub codes : String → Text
codes String.[] = []
codes (String.◌∷◌ c s) = code c ∷ codes s

-- Go's `==` on strings.
unfoldable pub eqt : Text → Text → Bool
eqt [] [] = true
eqt (x ∷ xs) (y ∷ ys) = x == y && eqt xs ys
eqt _ _ = false

pub eqt_iff : (s t : Text) → (eqt s t ≡ true) ↔ (s ≡ t)
unfolding eqt
eqt_iff (x ∷ s) (y ∷ t) = ground (arith, eqt_iff s t)
eqt_iff _ _ = ground arith

pub eqt_refl : (s : Text) → eqt s s ≡ true
eqt_refl s = (eqt_iff s s).1 refl

-- `s == ""`
unfoldable pub is_empty {ℓ} : {A : Type ℓ} → List A → Bool
is_empty [] = true
is_empty (x ∷ xs) = false

-- One of the literals of a `switch` case.
unfoldable pub one_of : Text → List Text → Bool
one_of s [] = false
one_of s (t ∷ ts) = eqt s t || one_of s ts

unfoldable pub lower_byte : ℕ → ℕ
lower_byte c = if leb b'A' c && leb c b'Z' then c + 32 else c

unfoldable pub upper_byte : ℕ → ℕ
upper_byte c = if leb b'a' c && leb c b'z' then c - 32 else c

-- `strings.ToLower`, `strings.ToUpper`, `strings.EqualFold`
unfoldable pub to_lower : Text → Text
unfolding lower_byte
to_lower [] = []
to_lower (c ∷ s) = lower_byte c ∷ to_lower s

unfoldable pub to_upper : Text → Text
unfolding upper_byte
to_upper [] = []
to_upper (c ∷ s) = upper_byte c ∷ to_upper s

unfoldable pub equal_fold : Text → Text → Bool
unfolding eqt to_lower
equal_fold s t = eqt (to_lower s) (to_lower t)

-- The prefix removed, if it is there.
unfoldable pub cut_prefix : Text → Text → Option Text
cut_prefix [] s = some s
cut_prefix (p ∷ ps) [] = none
cut_prefix (p ∷ ps) (c ∷ s) = if p == c then cut_prefix ps s else none

-- `strings.HasPrefix(s, p)`
unfoldable pub has_prefix : Text → Text → Bool
unfolding cut_prefix
has_prefix s p = elim (cut_prefix p s) [ none ↦ false | some _ ↦ true ]

-- `strings.TrimPrefix(s, p)`
unfoldable pub trim_prefix : Text → Text → Text
unfolding cut_prefix
trim_prefix s p = elim (cut_prefix p s) [ none ↦ s | some r ↦ r ]

-- `strings.TrimSuffix(s, p)`
unfoldable pub trim_suffix : Text → Text → Text
unfolding trim_prefix
trim_suffix s p = reverse (trim_prefix (reverse s) (reverse p))

unfoldable pub is_space : ℕ → Bool
is_space c = c == 32 || (leb 9 c && leb c 13)

unfoldable pub trim_left : Text → Text
unfolding is_space
trim_left [] = []
trim_left (c ∷ s) = if is_space c then trim_left s else c ∷ s

-- `strings.TrimSpace`
unfoldable pub trim_space : Text → Text
unfolding trim_left
trim_space s = reverse (trim_left (reverse (trim_left s)))

-- `strings.Cut` at one byte: what stands before its first place, and after it.
unfoldable pub cut_byte : ℕ → Text → Option (Text × Text)
cut_byte b [] = none
cut_byte b (c ∷ s) =
    if c == b
    then some ([], s)
    else elim (cut_byte b s) [ none ↦ none | some (x, y) ↦ some (c ∷ x, y) ]

-- `strings.Contains(s, t)`
unfoldable pub contains : Text → Text → Bool
unfolding has_prefix
contains [] t = has_prefix [] t
contains (c ∷ s) t = has_prefix (c ∷ s) t || contains s t

-- `strings.Split` at one byte; the pieces are never none.
unfoldable pub split_byte : ℕ → Text → List Text
split_byte b [] = [] ∷ []
split_byte b (c ∷ s) =
    if c == b
    then [] ∷ split_byte b s
    else elim (split_byte b s) [ [] ↦ (c ∷ []) ∷ [] | p ∷ ps ↦ (c ∷ p) ∷ ps ]

-- `strings.Join`
unfoldable pub join : Text → List Text → Text
join sep [] = []
join sep (p ∷ []) = p
join sep (p ∷ q ∷ ps) = p ++ (sep ++ join sep (q ∷ ps))

-- The words so far, and what `strings.Fields` makes of the rest.
fields_from : Text → Text → List Text
unfolding is_space is_empty
fields_from word [] = if is_empty word then [] else word ∷ []
fields_from word (c ∷ s) =
    let rest = fields_from (if is_space c then [] else word ++ (c ∷ [])) s in
    if is_space c && not (is_empty word) then word ∷ rest else rest

-- `strings.Fields(s)`
unfoldable pub fields : Text → List Text
unfolding fields_from
fields = fields_from []

-- `strings.Cut(s, sep)`
unfoldable pub cut_text : Text → Text → Option (Text × Text)
unfolding cut_prefix
cut_text sep [] = elim sep [ [] ↦ some ([], []) | c ∷ s ↦ none ]
cut_text sep (c ∷ s) = elim (cut_prefix sep (c ∷ s)) [
  | some rest ↦ some ([], rest)
  | none ↦ elim (cut_text sep s) [ none ↦ none | some (x, y) ↦ some (c ∷ x, y) ]
]

-- `strings.ReplaceAll(s, "\r\n", "\n")`
unfoldable pub unix_lines : Text → Text
unix_lines [] = []
unix_lines (c ∷ s) =
    let rest = unix_lines s in
    elim s [ [] ↦ c ∷ rest | d ∷ s' ↦ if c == b'\r' && d == b'\n' then rest else c ∷ rest ]

-- `strings.Trim(s, c)` at one byte
trim_byte_left : ℕ → Text → Text
trim_byte_left b [] = []
trim_byte_left b (c ∷ s) = if c == b then trim_byte_left b s else c ∷ s

unfoldable pub trim_byte : ℕ → Text → Text
unfolding trim_byte_left
trim_byte b s = reverse (trim_byte_left b (reverse (trim_byte_left b s)))
