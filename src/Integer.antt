-- ===== src/Integer.antt =====
-- Signed 32-bit integers, as pids and descriptors; `negsuc n` is -(n + 1).
use handoff.Prelude.{ℕ}

pub data ℤ : Type 0 where
  pos : ℕ → ℤ
  negsuc : ℕ → ℤ
