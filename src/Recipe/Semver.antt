-- ===== src/Recipe/Semver.antt =====
-- pkg/recipe/parser.go: the versions of the isann command line.
pub mod Order
use servers.Base.{
  ℕ, ◌+◌, ◌-◌, ◌*◌, Bool, true, false, not, ◌&&◌, List, [], ◌∷◌, map, Option, none, some, is_some,
  Text, codes, trim_prefix, split_byte, parse_int, is_empty, leb, ltb, ◌==◌, if◌then◌else◌, two63,
  two64, slt64, length, neg64,
}

-- `strconv.Atoi` on digits: a number below 2^64, or the error that comes first.
pub data Digits : Type 0 where
  number : ℕ → Digits
  bad_syntax too_large : Digits

read_digits : ℕ → Text → Digits
read_digits acc [] = number acc
read_digits acc (c ∷ s) =
    let more = read_digits (acc * 10 + (c - b'0')) s in
    if not (leb b'0' c && leb c b'9')
    then bad_syntax
    else if leb two64 (acc * 10 + (c - b'0'))
    then too_large
    else more

-- The value that `Atoi` gives beside its error: 0, or the int64 nearest to what was written.
clamp_positive : Digits → ℕ
clamp_positive (number n) = if ltb n two63 then n else two63 - 1
clamp_positive bad_syntax = 0
clamp_positive too_large = two63 - 1

clamp_negative : Digits → ℕ
clamp_negative (number n) = if ltb n two63 then neg64 n else two63
clamp_negative bad_syntax = 0
clamp_negative too_large = two63

unsigned_part : Text → Digits
unfolding read_digits
unsigned_part [] = bad_syntax
unsigned_part (c ∷ s) = read_digits 0 (c ∷ s)

unfoldable pub atoi_value : Text → ℕ
unfolding clamp_positive clamp_negative unsigned_part
atoi_value [] = 0
atoi_value (c ∷ s) =
    if c == b'-'
    then clamp_negative (unsigned_part s)
    else if c == b'+'
    then clamp_positive (unsigned_part s)
    else clamp_positive (unsigned_part (c ∷ s))

unfoldable pub all_numbers : List Text → Bool
all_numbers [] = true
all_numbers (p ∷ ps) = not (is_empty p) && is_some (parse_int p) && all_numbers ps

unfoldable pub looks_like_semver : Text → Bool
unfolding all_numbers
looks_like_semver s =
    let parts = split_byte b'.' (trim_prefix s (codes "v")) in
    leb 1 (length parts) && leb (length parts) 4 && all_numbers parts

unfoldable pub split_ver_nums : Text → List ℕ
unfolding atoi_value
split_ver_nums s = map atoi_value (split_byte b'.' (trim_prefix s (codes "v")))

-- The result -1, 0 or 1.
pub data Verdict : Type 0 where
  less same greater : Verdict

-- The loop over the components; those that are missing are 0.
unfoldable pub compare_nums : List ℕ → List ℕ → Verdict
compare_nums [] [] = same
compare_nums (a ∷ as') [] =
    let rest = compare_nums as' [] in
    if slt64 a 0 then less else if slt64 0 a then greater else rest
compare_nums [] (b ∷ bs) =
    let rest = compare_nums [] bs in if slt64 0 b then less else if slt64 b 0 then greater else rest
compare_nums (a ∷ as') (b ∷ bs) =
    let rest = compare_nums as' bs in
    if slt64 a b then less else if slt64 b a then greater else rest

unfoldable pub compare_semver : Text → Text → Verdict
unfolding compare_nums split_ver_nums
compare_semver a b = compare_nums (split_ver_nums a) (split_ver_nums b)
