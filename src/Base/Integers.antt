-- ===== src/Base/Integers.antt =====
-- The integers over the native numbers.
use Prim.Native.Nat.{ℕ, zero, suc, ◌+◌, ◌-◌}
use mathlib.Core.Bool.{Bool, true, false}
use mpi_comp_match.Base.Tests.{ltb, leb, if◌then◌else◌}

pub data ℤ : Type 0 where
  pos : ℕ → ℤ
  negsuc : ℕ → ℤ

-- The difference of two natural numbers.
abbrev pub subℕ : ℕ → ℕ → ℤ
subℕ m n = if leb n m then pos (m - n) else negsuc (n - m - 1)

infixl 60 ◌+ℤ◌
abbrev pub ◌+ℤ◌ : ℤ → ℤ → ℤ
pos m +ℤ pos n = pos (m + n)
pos m +ℤ negsuc n = subℕ m (suc n)
negsuc m +ℤ pos n = subℕ n (suc m)
negsuc m +ℤ negsuc n = negsuc (suc (m + n))

abbrev pub lebℤ : ℤ → ℤ → Bool
lebℤ (pos m) (pos n) = leb m n
lebℤ (pos m) (negsuc n) = false
lebℤ (negsuc m) (pos n) = true
lebℤ (negsuc m) (negsuc n) = leb n m

abbrev pub ltbℤ : ℤ → ℤ → Bool
ltbℤ (pos m) (pos n) = ltb m n
ltbℤ (pos m) (negsuc n) = false
ltbℤ (negsuc m) (pos n) = true
ltbℤ (negsuc m) (negsuc n) = ltb n m

abbrev pub is_zeroℤ : ℤ → Bool
is_zeroℤ (pos zero) = true
is_zeroℤ (pos (suc n)) = false
is_zeroℤ (negsuc n) = false
