-- ===== src/Common/Ints.antt =====
-- Signed integers, as far as the program needs them: Go's `int` values that may be negative.
use Prim.Native.Nat.{ℕ}

-- `negsuc n` is -(n + 1).
pub data ℤ : Type 0 where
  pos : ℕ → ℤ
  negsuc : ℕ → ℤ
