-- ===== src/Prelude/Int.antt =====
-- Signed 64-bit values as integers over the native numbers, under the library's names.
use Prim.Native.Nat.{ℕ}
use mathlib.Core.Bool.{Bool, false}
use pushcompat.Prelude.Tests.{◌==◌}

-- `negsuc n` is -(n + 1).
pub data ℤ : Type 0 where
  pos : ℕ → ℤ
  negsuc : ℕ → ℤ

abbrev pub is_nat : ℤ → ℕ → Bool
is_nat (pos m) n = m == n
is_nat (negsuc m) n = false

abbrev pub same_integer : ℤ → ℤ → Bool
same_integer (pos m) (pos n) = m == n
same_integer (pos m) (negsuc n) = false
same_integer (negsuc m) (pos n) = false
same_integer (negsuc m) (negsuc n) = m == n
