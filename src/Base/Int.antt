-- ===== src/Base/Int.antt =====
-- An `int` that may be negative, under the library's names (its ℤ stands on the unary ℕ).
use Prim.Native.Nat.{ℕ}

-- `negsuc n` is -(n + 1).
pub data ℤ : Type 0 where
  pos : ℕ → ℤ
  negsuc : ℕ → ℤ
