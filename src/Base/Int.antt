-- ===== src/Base/Int.antt =====
-- Signed integers over the native numbers, under the library's names: its ℤ stands on the unary ℕ.
use qdmi_on_iqm.Base.{ℕ}

-- `negsuc n` is -(n + 1).
pub data ℤ : Type 0 where
  pos : ℕ → ℤ
  negsuc : ℕ → ℤ
