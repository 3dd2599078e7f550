-- ===== src/Api/Int.antt =====
-- The integers of a Go `int` that may be negative. `negsuc n` is -(n + 1).
use eyedebugger.Prelude.{ℕ}

pub data ℤ : Type 0 where
  pos : ℕ → ℤ
  negsuc : ℕ → ℤ
