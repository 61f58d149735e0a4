-- ===== src/Common/Int.antt =====
-- Go's signed integers, as far as the program compares them with bounds.
use go_smsc_simulator.Common.Tests.{ltb, ◌==◌}
use Prim.Native.Nat.{ℕ}
use mathlib.Core.Bool.{Bool, true, false}

-- `negsuc n` is -(n + 1).
pub data ℤ : Type 0 where
  pos : ℕ → ℤ
  negsuc : ℕ → ℤ

-- `z < n` and `n < z`.
abbrev pub is_below : ℤ → ℕ → Bool
is_below (pos k) n = ltb k n
is_below (negsuc k) n = true

abbrev pub is_above : ℤ → ℕ → Bool
is_above (pos k) n = ltb n k
is_above (negsuc k) n = false

-- The lower bound 0 is met by every value that is not negative.
abbrev pub to_nat : ℤ → ℕ
to_nat (pos n) = n
to_nat (negsuc n) = 0

abbrev pub eq_int : ℤ → ℤ → Bool
eq_int (pos a) (pos b) = a == b
eq_int (negsuc a) (negsuc b) = a == b
eq_int (pos a) (negsuc b) = false
eq_int (negsuc a) (pos b) = false
