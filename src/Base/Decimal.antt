-- ===== src/Base/Decimal.antt =====
-- Go's `strconv.FormatInt` and `strconv.ParseInt` in base 10, on int64 words.
use Prim.Native.Nat.{ℕ, zero, suc, ◌+◌, ◌-◌, ◌*◌, ◌/◌, ◌%◌, ◌≤◌, ◌<◌}
use mathlib.Core.Path.{◌≡◌, refl, ◌∙◌}
use mathlib.Core.Bool.{true, false, ◌&&◌}
use mathlib.Core.List.{[], ◌∷◌}
use mathlib.Core.Option.{Option, none, some}
use native.Mathlib.Omega.{arith}
use servers.Base.Tests.{leb, ltb, ◌==◌, if◌then◌else◌, Bool-cases}
use mathlib.Core.Logic.{inl, inr}
use servers.Base.Lists.{length, All}
use servers.Base.Bytes.{Text}
use servers.Base.Word.{two63, two64, is_neg}

-- The digits of a number in front of a rest. Twenty rounds are enough below 10^20.
digits_loop : ℕ → ℕ → Text → Text
digits_loop zero n rest = rest
digits_loop (suc fuel) n rest =
    let more = digits_loop fuel (n / 10) ((n % 10 + b'0') ∷ rest) in
    if ltb n 10 then (n + b'0') ∷ rest else more

unfoldable pub format_nat : ℕ → Text
unfolding digits_loop
format_nat n = digits_loop 20 n []

unfoldable pub format_int : ℕ → Text
unfolding format_nat
format_int w = if is_neg w then b'-' ∷ format_nat (two64 - w) else format_nat w

parse_digits : ℕ → Text → Option ℕ
parse_digits acc [] = some acc
parse_digits acc (c ∷ s) =
    let more = parse_digits (acc * 10 + (c - b'0')) s in
    if leb b'0' c && leb c b'9' then more else none

-- A run of digits, not empty.
unfoldable pub parse_nat : Text → Option ℕ
unfolding parse_digits
parse_nat [] = none
parse_nat (c ∷ s) = parse_digits 0 (c ∷ s)

positive : Option ℕ → Option ℕ
positive none = none
positive (some n) = if ltb n two63 then some n else none

negative : Option ℕ → Option ℕ
negative none = none
negative (some n) = if leb n two63 then some ((two64 - n) % two64) else none

-- `none` is a syntax or a range error.
unfoldable pub parse_int : Text → Option ℕ
unfolding parse_nat positive negative
parse_int [] = none
parse_int (c ∷ s) =
    if c == b'-'
    then negative (parse_nat s)
    else if c == b'+'
    then positive (parse_nat s)
    else positive (parse_nat (c ∷ s))

abbrev cap : ℕ → ℕ
cap zero = 1
cap (suc fuel) = 10 * cap fuel

parse_digits-digits_loop :
    (fuel n : ℕ) (rest : Text)
    → n < cap fuel
    → parse_digits 0 (digits_loop fuel n rest) ≡ parse_digits n rest
unfolding digits_loop parse_digits
parse_digits-digits_loop zero n rest h = let e : n ≡ 0 = omega arith in rw e
parse_digits-digits_loop (suc fuel) n rest h =
    let again = parse_digits-digits_loop fuel (n / 10) ((n % 10 + b'0') ∷ rest) (omega arith) in
    let whole : n / 10 * 10 + n % 10 ≡ n = omega arith in ground (arith, again, whole)

abbrev pub IsDigit : ℕ → Type 0
IsDigit c = (b'0' ≤ c) × (c ≤ b'9')

digits_loop-IsDigit :
    (fuel n : ℕ) (rest : Text)
    → n < cap fuel
    → All IsDigit rest
    → All IsDigit (digits_loop fuel n rest)
unfolding digits_loop
digits_loop-IsDigit zero n rest h d = d
digits_loop-IsDigit (suc fuel) n rest h d = ground (
  arith,
  digits_loop-IsDigit fuel (n / 10) ((n % 10 + b'0') ∷ rest) (omega arith) (omega arith, d),
)

digits_loop-longer : (fuel n : ℕ) (rest : Text) → length rest ≤ length (digits_loop fuel n rest)
unfolding digits_loop
digits_loop-longer zero n rest = omega arith
digits_loop-longer (suc fuel) n rest =
    ground (arith, digits_loop-longer fuel (n / 10) ((n % 10 + b'0') ∷ rest))

digits_loop-pos : (fuel n : ℕ) (rest : Text) → 0 < length (digits_loop (suc fuel) n rest)
unfolding digits_loop
digits_loop-pos fuel n rest =
    ground (arith, digits_loop-longer fuel (n / 10) ((n % 10 + b'0') ∷ rest))

-- A number is printed by digits alone, one at least.
pub format_nat-IsDigit :
    (n : ℕ) → n < 100000000000000000000 → All IsDigit (format_nat n) × (0 < length (format_nat n))
unfolding format_nat
format_nat-IsDigit n h = (digits_loop-IsDigit 20 n [] (omega arith) tt, digits_loop-pos 19 n [])

parse_nat_digits : (s : Text) → 0 < length s → parse_nat s ≡ parse_digits 0 s
unfolding parse_nat
parse_nat_digits [] h = absurd (omega arith)
parse_nat_digits (c ∷ s) h = refl

pub parse_nat-format_nat : (n : ℕ) → n < 100000000000000000000 → parse_nat (format_nat n) ≡ some n
parse_nat-format_nat n h =
    parse_nat_digits (format_nat n) (format_nat-IsDigit n h).1
    ∙ unfold format_nat parse_digits in parse_digits-digits_loop 20 n [] (omega arith)

parse_int-positive :
    (s : Text) → All IsDigit s → 0 < length s → parse_int s ≡ positive (parse_nat s)
unfolding parse_int
parse_int-positive [] d h = absurd (omega arith)
parse_int-positive (c ∷ s) d h = ground arith

parse_int-negative : (s : Text) → parse_int (b'-' ∷ s) ≡ negative (parse_nat s)
unfolding parse_int
parse_int-negative s = refl

-- What `FormatInt` prints, `ParseInt` reads back, for every int64.
pub parse_int-format_int : (w : ℕ) → w < two64 → parse_int (format_int w) ≡ some w
unfolding format_int
parse_int-format_int w h = elim (Bool-cases (is_neg w)) [
  | inl n ↦ rw n (
      parse_int-negative (format_nat (two64 - w))
      ∙ rw (parse_nat-format_nat (two64 - w) (omega arith)) (minus n))
  | inr p ↦ rw p (
      parse_int-positive (format_nat w) (format_nat-IsDigit w (omega arith)).0
        (format_nat-IsDigit w (omega arith)).1
      ∙ rw (parse_nat-format_nat w (omega arith)) (plus p))
]
  where
    minus : is_neg w ≡ true → negative (some (two64 - w)) ≡ some w
    minus n = unfold negative in ground arith

    plus : is_neg w ≡ false → positive (some w) ≡ some w
    plus p = unfold positive in ground arith

positive_bound : (o : Option ℕ) (w : ℕ) → positive o ≡ some w → w < two64
unfolding positive
positive_bound none w h = absurd (ground arith)
positive_bound (some n) w h = ground arith

negative_bound : (o : Option ℕ) (w : ℕ) → negative o ≡ some w → w < two64
unfolding negative
negative_bound none w h = absurd (ground arith)
negative_bound (some n) w h = let small : (two64 - n) % two64 < two64 = omega arith in ground arith

-- What `ParseInt` reads is an int64.
pub parse_int_bound : (s : Text) (w : ℕ) → parse_int s ≡ some w → w < two64
unfolding parse_int
parse_int_bound [] w h = absurd (ground arith)
parse_int_bound (c ∷ s) w h = elim (Bool-cases (c == b'-')) [
  | inl e ↦ negative_bound (parse_nat s) w (ground arith)
  | inr e ↦ elim (Bool-cases (c == b'+')) [
    | inl f ↦ positive_bound (parse_nat s) w (ground arith)
    | inr f ↦ positive_bound (parse_nat (c ∷ s)) w (ground arith)
  ]
]
