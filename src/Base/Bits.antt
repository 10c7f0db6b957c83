-- ===== src/Base/Bits.antt =====
-- Big-endian words, and what an equation between two prefixed texts says.
use Prim.Native.Nat.{ℕ, ◌+◌, ◌*◌, ◌/◌, ◌%◌, ◌<◌}
use mathlib.Core.Path.{◌≡◌, refl}
use mathlib.Core.List.{[], ◌∷◌, ◌++◌}
use native.Mathlib.Omega.{arith}
use servers.Base.Lists.{length}
use servers.Base.Bytes.{Text}
use servers.Base.Word.{two64}

-- `binary.BigEndian.PutUint32` of `uint32(n)`
unfoldable pub be32 : ℕ → Text
be32 n = (n / 0x1000000 % 256) ∷ (n / 0x10000 % 256) ∷ (n / 256 % 256) ∷ (n % 256) ∷ []

-- `binary.BigEndian.PutUint64`
unfoldable pub be64 : ℕ → Text
unfolding be32
be64 n = be32 (n / 0x100000000) ++ be32 n

-- `binary.BigEndian.Uint32`
unfoldable pub read_be32 : ℕ → ℕ → ℕ → ℕ → ℕ
read_be32 a b c d = ((a * 256 + b) * 256 + c) * 256 + d

pub head_eq : {a b : ℕ} {s t : Text} → a ∷ s ≡ b ∷ t → (a ≡ b) × (s ≡ t)
head_eq h = (cc, cc)

-- Two words that are followed by something agree when the texts do.
pub be32_append_inj :
    (m n : ℕ) (s t : Text)
    → m < 0x100000000
    → n < 0x100000000
    → be32 m ++ s ≡ be32 n ++ t
    → (m ≡ n) × (s ≡ t)
unfolding be32
be32_append_inj m n s t hm hn h =
    let a = head_eq h in
    let b = head_eq a.1 in
    let c = head_eq b.1 in let d = head_eq c.1 in (omega (arith, a.0, b.0, c.0, d.0), d.1)

pub append-inj : (a b s t : Text) → length a ≡ length b → a ++ s ≡ b ++ t → (a ≡ b) × (s ≡ t)
append-inj [] [] s t e h = (refl, h)
append-inj [] (y ∷ b) s t e h = absurd (omega arith)
append-inj (x ∷ a) [] s t e h = absurd (omega arith)
append-inj (x ∷ a) (y ∷ b) s t e h =
    let p = head_eq h in let q = append-inj a b s t (omega arith) p.1 in (cc (p.0, q.0), q.1)

pub append_left-inj : (a s t : Text) → a ++ s ≡ a ++ t → s ≡ t
append_left-inj a s t h = (append-inj a a s t refl h).1

pub be64-inj : (m n : ℕ) → m < two64 → n < two64 → be64 m ≡ be64 n → m ≡ n
unfolding be64
be64-inj m n hm hn h =
    let top =
      be32_append_inj (m / 0x100000000) (n / 0x100000000) (be32 m) (be32 n) (omega arith)
        (omega arith) h in
    low (omega (arith, top.0)) top.1
  where
    low : m / 0x100000000 ≡ n / 0x100000000 → be32 m ≡ be32 n → m ≡ n
    low e l =
        let a = head_eq l in
        let b = head_eq a.1 in
        let c = head_eq b.1 in let d = head_eq c.1 in omega (arith, e, a.0, b.0, c.0, d.0)

pub read_be32-be32 :
    (n : ℕ)
    → n < 0x100000000
    → read_be32 (n / 0x1000000 % 256) (n / 0x10000 % 256) (n / 256 % 256) (n % 256) ≡ n
unfolding read_be32
read_be32-be32 n h = omega arith
