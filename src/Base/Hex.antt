-- ===== src/Base/Hex.antt =====
-- Go's `hex.EncodeToString` and `hex.DecodeString`.
use Prim.Native.Nat.{ℕ, ◌+◌, ◌-◌, ◌*◌, ◌/◌, ◌%◌, ◌<◌}
use mathlib.Core.Path.{◌≡◌, refl, ap}
use mathlib.Core.Bool.{◌&&◌}
use mathlib.Core.List.{[], ◌∷◌}
use mathlib.Core.Option.{Option, none, some}
use native.Mathlib.Omega.{arith}
use servers.Base.Tests.{leb, ltb, if◌then◌else◌}
use servers.Base.Lists.{All}
use servers.Base.Bytes.{Text, codes, trim_prefix}

hex_char : ℕ → ℕ
hex_char d = if ltb d 10 then d + b'0' else d - 10 + b'a'

unfoldable pub hex_encode : Text → Text
unfolding hex_char
hex_encode [] = []
hex_encode (b ∷ s) = hex_char (b / 16) ∷ hex_char (b % 16) ∷ hex_encode s

hex_value : ℕ → Option ℕ
hex_value c =
    if leb b'0' c && leb c b'9'
    then some (c - b'0')
    else if leb b'a' c && leb c b'f'
    then some (c - b'a' + 10)
    else if leb b'A' c && leb c b'F'
    then some (c - b'A' + 10)
    else none

hex_pair : Option ℕ → Option ℕ → Option Text → Option Text
hex_pair (some x) (some y) (some s) = some ((x * 16 + y) ∷ s)
hex_pair _ _ _ = none

-- `none` is an odd length or a character that is no digit.
unfoldable pub hex_decode : Text → Option Text
unfolding hex_value hex_pair
hex_decode [] = some []
hex_decode (c ∷ []) = none
hex_decode (c ∷ d ∷ s) = hex_pair (hex_value c) (hex_value d) (hex_decode s)

abbrev pub IsByte : ℕ → Type 0
IsByte b = b < 256

hex_value-hex_char : (d : ℕ) → d < 16 → hex_value (hex_char d) ≡ some d
unfolding hex_value hex_char
hex_value-hex_char d h = ground arith

hex_decode-cons :
    (c d : ℕ) (s : Text)
    → hex_decode (c ∷ d ∷ s) ≡ hex_pair (hex_value c) (hex_value d) (hex_decode s)
unfolding hex_decode
hex_decode-cons c d s = refl

hex_encode-cons :
    (x : ℕ) (s : Text) → hex_encode (x ∷ s) ≡ hex_char (x / 16) ∷ hex_char (x % 16) ∷ hex_encode s
unfolding hex_encode
hex_encode-cons x s = refl

pub hex_decode-hex_encode : (s : Text) → All IsByte s → hex_decode (hex_encode s) ≡ some s
hex_decode-hex_encode [] b = unfold hex_decode hex_encode in refl
hex_decode-hex_encode (x ∷ s) b =
    let whole : x / 16 * 16 + x % 16 ≡ x = omega arith in
    rw
      (
        hex_encode-cons x s,
        hex_decode-cons,
        hex_value-hex_char (x / 16) (omega arith),
        hex_value-hex_char (x % 16) (omega arith),
        hex_decode-hex_encode s b.1,
      )
      (unfold hex_pair in ap (λ y. some (y ∷ s)) whole)

-- An encoding does not begin with `0x`.
pub trim_prefix-hex_encode : (s : Text) → trim_prefix (hex_encode s) (codes "0x") ≡ hex_encode s
unfolding trim_prefix hex_encode
trim_prefix-hex_encode [] = refl
trim_prefix-hex_encode (x ∷ s) = ground arith
