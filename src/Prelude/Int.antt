-- ===== src/Prelude/Int.antt =====
-- The signed numbers that the stream configurations carry. The program passes them on unread.
use Prim.Native.Nat.{ℕ}

-- `negsuc n` is -(n + 1).
pub data ℤ : Type 0 where
  pos : ℕ → ℤ
  negsuc : ℕ → ℤ
