-- ===== src/Base/Bytes.antt =====
-- Bytes as numbers below 256, and big-endian numbers.
use Prim.Native.Nat.{ℕ, zero, suc, ◌+◌, ◌*◌, ◌/◌, ◌%◌, ◌≤◌, ◌<◌}
use mathlib.Core.Path.{◌≡◌, ap, ◌∙◌}
use mathlib.Core.List.{List, [], ◌∷◌, ◌++◌}
use native.Mathlib.Omega.{arith}
use rs_lxmflite.Base.Lists.{length, All}

abbrev pub IsByte : ℕ → Type 0
IsByte b = b < 256

abbrev pub IsBytes : List ℕ → Type 0
IsBytes bs = All IsByte bs

-- The number that `bs` writes, highest byte first, behind `acc`.
abbrev pub be_from : ℕ → List ℕ → ℕ
be_from acc [] = acc
be_from acc (b ∷ bs) = be_from (acc * 256 + b) bs

-- `uN::from_be_bytes`
abbrev pub be_value : List ℕ → ℕ
be_value bs = be_from 0 bs

-- `u16::to_be_bytes`, `u32::to_be_bytes` and `u64::to_be_bytes`.
abbrev pub be16 : ℕ → List ℕ
be16 n = (n / 256 % 256) ∷ (n % 256) ∷ []

abbrev pub be32 : ℕ → List ℕ
be32 n = (n / 16777216 % 256) ∷ (n / 65536 % 256) ∷ be16 n

abbrev pub be64 : ℕ → List ℕ
be64 n = be32 (n / 4294967296) ++ be32 n

pub be16-IsBytes : (n : ℕ) → IsBytes (be16 n)
be16-IsBytes n = omega arith

pub be_value-be16 : (n : ℕ) → n < 65536 → be_value (be16 n) ≡ n
be_value-be16 n h = omega arith

pub be_value-be32 : (n : ℕ) → n < 4294967296 → be_value (be32 n) ≡ n
be_value-be32 n h = omega arith

pub be_value-be64 : (n : ℕ) → n < 18446744073709551616 → be_value (be64 n) ≡ n
be_value-be64 n h = omega arith

pub be_from-ge : (v : ℕ) (bs : List ℕ) → v ≤ be_from v bs
be_from-ge v [] = omega arith
be_from-ge v (b ∷ bs) = omega (arith, be_from-ge (v * 256 + b) bs)

-- Four bytes are a number of 32 bits.
pub be_value-lt : (bs : List ℕ) → IsBytes bs → length bs ≤ 4 → be_value bs < 4294967296
be_value-lt [] h l = omega arith
be_value-lt (a ∷ []) h l = omega arith
be_value-lt (a ∷ b ∷ []) h l = omega arith
be_value-lt (a ∷ b ∷ c ∷ []) h l = omega arith
be_value-lt (a ∷ b ∷ c ∷ d ∷ []) h l = omega arith
be_value-lt (a ∷ b ∷ c ∷ d ∷ e ∷ bs) h l = absurd (omega arith)

-- How much a byte counts with `n` bytes behind it: 256 to the power `n`.
abbrev pub weight : ℕ → ℕ
weight zero = 1
weight (suc n) = 256 * weight n

-- More in front counts with the weight of what follows.
pub be_from-add :
    (bs : List ℕ) (acc k : ℕ) → be_from (acc + k) bs ≡ be_from acc bs + k * weight (length bs)
be_from-add [] acc k = omega arith
be_from-add (b ∷ bs) acc k =
    ap (λ a. be_from a bs) (omega arith) ∙ be_from-add bs (acc * 256 + b) (k * 256) ∙ omega arith

pub be_value-bound : (bs : List ℕ) → IsBytes bs → be_value bs < weight (length bs)
be_value-bound [] h = omega arith
be_value-bound (b ∷ bs) h = grind (arith, be_from-add bs 0 b, be_value-bound bs h.1, h.0)
