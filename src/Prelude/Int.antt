-- ===== src/Prelude/Int.antt =====
-- Python's `int` where the code may meet a negative one.
use Prim.Native.Nat.{ℕ}
use mathlib.Core.Bool.{Bool, false}
use gitlab_reviewer.Prelude.Tests.{◌==◌}

-- `negsuc n` is -(n + 1).
pub data ℤ : Type 0 where
  pos : ℕ → ℤ
  negsuc : ℕ → ℤ

abbrev pub is_zero : ℤ → Bool
is_zero (pos n) = n == 0
is_zero (negsuc n) = false
