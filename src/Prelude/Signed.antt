-- ===== src/Prelude/Signed.antt =====
-- Go's signed integers, where the program tests for negative ones.
use Prim.Native.Nat.{ℕ}

-- `negsuc n` is -(n + 1).
pub data ℤ : Type 0 where
  pos : ℕ → ℤ
  negsuc : ℕ → ℤ
