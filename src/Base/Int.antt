-- ===== src/Base/Int.antt =====
-- Signed numbers, for the results that C routines return as `int`.
use Prim.Native.Nat.{ℕ}

-- `negsuc n` is -(n + 1).
pub data ℤ : Type 0 where
  pos : ℕ → ℤ
  negsuc : ℕ → ℤ
