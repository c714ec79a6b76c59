-- ===== src/Common/Int.antt =====
-- Signed integers over the native numbers, for the amounts and flags that come from outside.
use Prim.Native.Nat.{ℕ}
use mathlib.Core.Bool.{Bool, true, false}
use online_prorab.Common.Tests.{ltb, ◌==◌}

-- `negsuc n` is -(n + 1).
pub data ℤ : Type 0 where
  pos : ℕ → ℤ
  negsuc : ℕ → ℤ

abbrev pub eq_ℤ : ℤ → ℤ → Bool
eq_ℤ (pos a) (pos b) = a == b
eq_ℤ (negsuc a) (negsuc b) = a == b
eq_ℤ _ _ = false

-- `a <= 0`.
abbrev pub is_nonpositive : ℤ → Bool
is_nonpositive (pos n) = n == 0
is_nonpositive (negsuc n) = true

-- `a < n` and `a > n`, for a bound that is not negative.
abbrev pub is_below : ℤ → ℕ → Bool
is_below (pos a) n = ltb a n
is_below (negsuc a) n = true

abbrev pub is_above : ℤ → ℕ → Bool
is_above (pos a) n = ltb n a
is_above (negsuc a) n = false

-- The part of an integer that is above 0.
abbrev pub positive_part : ℤ → ℕ
positive_part (pos a) = a
positive_part (negsuc a) = 0
