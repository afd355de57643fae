-- ===== src/Prelude/Bytes.antt =====
-- Bytes as numbers below 256, and little-endian words.
use Prim.Native.Nat.{ℕ, ◌+◌, ◌*◌, ◌/◌, ◌%◌, ◌^◌, ◌<◌}
use mathlib.Core.Path.{◌≡◌}
use mathlib.Core.List.{List, [], ◌∷◌}
use native.Mathlib.Omega.{arith}

abbrev pub IsByte : ℕ → Type 0
IsByte b = b < 256

abbrev pub IsU16 : ℕ → Type 0
IsU16 v = v < 2 ^ 16

abbrev pub IsU32 : ℕ → Type 0
IsU32 v = v < 2 ^ 32

-- `u16::from_le_bytes`, `u32::from_le_bytes`
abbrev pub of_le16 : ℕ → ℕ → ℕ
of_le16 a b = a + 256 * b

abbrev pub of_le32 : ℕ → ℕ → ℕ → ℕ → ℕ
of_le32 a b c d = a + 256 * b + 65536 * c + 16777216 * d

-- `u16::to_le_bytes`, `u32::to_le_bytes`
abbrev pub le16 : ℕ → List ℕ
le16 v = v % 256 ∷ v / 256 % 256 ∷ []

abbrev pub le32 : ℕ → List ℕ
le32 v = v % 256 ∷ v / 256 % 256 ∷ v / 65536 % 256 ∷ v / 16777216 % 256 ∷ []

pub of_le16-le16 : (v : ℕ) → IsU16 v → of_le16 (v % 256) (v / 256 % 256) ≡ v
of_le16-le16 v h = omega arith

pub of_le32-le32 :
    (v : ℕ) → IsU32 v → of_le32 (v % 256) (v / 256 % 256) (v / 65536 % 256) (v / 16777216 % 256) ≡ v
of_le32-le32 v h = omega arith
