-- ===== src/Base/Ints.antt =====
-- Signed integers over the native numbers: `negsuc n` is -1 - n.
use Prim.Native.Nat.{ℕ}

pub data ℤ : Type 0 where
  pos : ℕ → ℤ
  negsuc : ℕ → ℤ
