-- ===== src/Base/Utf8.antt =====
-- Go's `bytes.EqualFold`, which reads its arguments as UTF-8. Bytes that are no UTF-8 decode to
-- U+FFFD, one at a time. The Unicode fold orbits are a parameter.
use Prim.Native.Nat.{ℕ, zero, suc, ◌+◌, ◌*◌, ◌%◌, ◌≤◌, ◌<◌, min, max}
use mathlib.Core.Path.{◌≡◌, refl}
use mathlib.Core.Bool.{Bool, true, false, ◌&&◌}
use mathlib.Core.List.{[], ◌∷◌}
use native.Mathlib.Omega.{arith}
use servers.Base.Tests.{leb, ltb, ◌==◌, if◌then◌else◌}
use servers.Base.Lists.{length, All}
use servers.Base.Bytes.{Text}

abbrev within : ℕ → ℕ → ℕ → Bool
within lo hi b = leb lo b && leb b hi

abbrev bad_rune : ℕ
bad_rune = 0xFFFD

decode2 : ℕ → Text → ℕ × Text
decode2 c (d ∷ r) = if within 0x80 0xBF d then (c % 32 * 64 + d % 64, r) else (bad_rune, d ∷ r)
decode2 c [] = (bad_rune, [])

decode3 : ℕ → Text → ℕ × Text
decode3 c (d ∷ e ∷ r) =
    let lo : ℕ = if c == 0xE0 then 0xA0 else 0x80 in
    let hi : ℕ = if c == 0xED then 0x9F else 0xBF in
    if within lo hi d && within 0x80 0xBF e
    then (c % 16 * 4096 + d % 64 * 64 + e % 64, r)
    else (bad_rune, d ∷ e ∷ r)
decode3 c r = (bad_rune, r)

decode4 : ℕ → Text → ℕ × Text
decode4 c (d ∷ e ∷ g ∷ r) =
    let lo : ℕ = if c == 0xF0 then 0x90 else 0x80 in
    let hi : ℕ = if c == 0xF4 then 0x8F else 0xBF in
    if within lo hi d && within 0x80 0xBF e && within 0x80 0xBF g
    then (c % 8 * 262144 + d % 64 * 4096 + e % 64 * 64 + g % 64, r)
    else (bad_rune, d ∷ e ∷ g ∷ r)
decode4 c r = (bad_rune, r)

-- `utf8.DecodeRune` of a first byte and what follows: the rune and the rest.
decode_rune : ℕ → Text → ℕ × Text
unfolding decode2 decode3 decode4
decode_rune c r =
    if ltb c 0x80
    then (c, r)
    else if within 0xC2 0xDF c
    then decode2 c r
    else if within 0xE0 0xEF c
    then decode3 c r
    else if within 0xF0 0xF4 c
    then decode4 c r
    else (bad_rune, r)

rune_fold : (ℕ → ℕ → Bool) → ℕ → ℕ → Bool
rune_fold same x y =
    let lo = min x y in
    let hi = max x y in
    if x == y
    then true
    else if ltb hi 0x80
    then within b'A' b'Z' lo && hi == lo + 32
    else same lo hi

fold_loop : (ℕ → ℕ → Bool) → ℕ → Text → Text → Bool
unfolding decode_rune rune_fold
fold_loop same zero s t = false
fold_loop same (suc fuel) [] [] = true
fold_loop same (suc fuel) [] (y ∷ t) = false
fold_loop same (suc fuel) (x ∷ s) [] = false
fold_loop same (suc fuel) (x ∷ s) (y ∷ t) =
    let (p, s') = decode_rune x s in
    let (q, t') = decode_rune y t in rune_fold same p q && fold_loop same fuel s' t'

-- Each round takes a byte at least, so one more than the length is enough fuel.
unfoldable pub equal_fold_bytes : (ℕ → ℕ → Bool) → Text → Text → Bool
unfolding fold_loop
equal_fold_bytes same s t = fold_loop same (suc (length s)) s t

rune_fold_refl : (same : ℕ → ℕ → Bool) (x : ℕ) → rune_fold same x x ≡ true
unfolding rune_fold
rune_fold_refl same x = ground arith

decode2-shorter : (c : ℕ) (r : Text) → length (decode2 c r).1 ≤ length r
unfolding decode2
decode2-shorter c [] = omega arith
decode2-shorter c (d ∷ r) = ground arith

decode3-shorter : (c : ℕ) (r : Text) → length (decode3 c r).1 ≤ length r
unfolding decode3
decode3-shorter c [] = omega arith
decode3-shorter c (d ∷ []) = omega arith
decode3-shorter c (d ∷ e ∷ r) = ground arith

decode4-shorter : (c : ℕ) (r : Text) → length (decode4 c r).1 ≤ length r
unfolding decode4
decode4-shorter c [] = omega arith
decode4-shorter c (d ∷ []) = omega arith
decode4-shorter c (d ∷ e ∷ []) = omega arith
decode4-shorter c (d ∷ e ∷ g ∷ r) = ground arith

decode_rune-shorter : (c : ℕ) (r : Text) → length (decode_rune c r).1 ≤ length r
unfolding decode_rune
decode_rune-shorter c r =
    ground (arith, decode2-shorter c r, decode3-shorter c r, decode4-shorter c r)

fold_loop_refl :
    (same : ℕ → ℕ → Bool) (fuel : ℕ) (s : Text) → length s < fuel → fold_loop same fuel s s ≡ true
unfolding fold_loop
fold_loop_refl same zero s h = absurd (omega arith)
fold_loop_refl same (suc fuel) [] h = refl
fold_loop_refl same (suc fuel) (x ∷ s) h =
    rw (rune_fold_refl same (decode_rune x s).0)
      (fold_loop_refl same fuel (decode_rune x s).1 (omega (arith, decode_rune-shorter x s)))

-- What is equal is equal under folding.
pub equal_fold_bytes_refl : (same : ℕ → ℕ → Bool) (s : Text) → equal_fold_bytes same s s ≡ true
unfolding equal_fold_bytes
equal_fold_bytes_refl same s = fold_loop_refl same (suc (length s)) s (omega arith)

-- Bytes that can only continue a rune, and never begin one.
abbrev pub Stray : Text → Type 0
Stray = All (λ b. (0x80 ≤ b) × (b ≤ 0xBF))

fold_loop-Stray :
    (same : ℕ → ℕ → Bool) (fuel : ℕ) (s t : Text)
    → length s < fuel
    → length s ≡ length t
    → Stray s
    → Stray t
    → fold_loop same fuel s t ≡ true
unfolding fold_loop
fold_loop-Stray same zero s t h e a b = absurd (omega arith)
fold_loop-Stray same (suc fuel) [] [] h e a b = refl
fold_loop-Stray same (suc fuel) [] (y ∷ t) h e a b = absurd (omega arith)
fold_loop-Stray same (suc fuel) (x ∷ s) [] h e a b = absurd (omega arith)
fold_loop-Stray same (suc fuel) (x ∷ s) (y ∷ t) h e a b =
    ground (arith, fold_loop-Stray same fuel s t (omega arith) (omega arith) a.1 b.1)

pub equal_fold_bytes-Stray :
    (same : ℕ → ℕ → Bool) (s t : Text)
    → length s ≡ length t
    → Stray s
    → Stray t
    → equal_fold_bytes same s t ≡ true
unfolding equal_fold_bytes
equal_fold_bytes-Stray same s t e a b =
    fold_loop-Stray same (suc (length s)) s t (omega arith) e a b
