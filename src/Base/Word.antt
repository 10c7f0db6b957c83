-- ===== src/Base/Word.antt =====
-- `int64` as a two's complement word, a number below 2^64.
use Prim.Native.Nat.{ℕ, ◌+◌, ◌-◌, ◌%◌}
use mathlib.Core.Bool.{Bool}
use servers.Base.Tests.{ltb, leb}

abbrev pub two63 : ℕ
two63 = 0x8000000000000000

abbrev pub two64 : ℕ
two64 = 0x10000000000000000

abbrev pub add64 : ℕ → ℕ → ℕ
add64 a b = (a + b) % two64

abbrev pub sub64 : ℕ → ℕ → ℕ
sub64 a b = (a + two64 - b) % two64

abbrev pub neg64 : ℕ → ℕ
neg64 a = (two64 - a) % two64

abbrev pub is_neg : ℕ → Bool
is_neg a = leb two63 a

-- The signed order: shifting by 2^63 makes it the order of the words.
abbrev pub slt64 : ℕ → ℕ → Bool
slt64 a b = ltb ((a + two63) % two64) ((b + two63) % two64)
