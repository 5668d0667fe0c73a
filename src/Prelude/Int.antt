-- ===== src/Prelude/Int.antt =====
-- Signed integers (the source's `bigint`) over the native numbers, under the library's names.
use split_naira.Prelude.Tests.{ltb}
use Prim.Native.Nat.{ℕ, zero, suc}
use mathlib.Core.Bool.{Bool, true, false}

-- `negsuc n` is -(n + 1).
pub data ℤ : Type 0 where
  pos : ℕ → ℤ
  negsuc : ℕ → ℤ

-- `-n`.
abbrev pub negate_ℕ : ℕ → ℤ
negate_ℕ zero = pos 0
negate_ℕ (suc n) = negsuc n

-- `x > 0n`, `x < 0n` and `x === 0n`.
abbrev pub is_positive : ℤ → Bool
is_positive (pos n) = ltb 0 n
is_positive (negsuc n) = false

abbrev pub is_negative : ℤ → Bool
is_negative (pos n) = false
is_negative (negsuc n) = true

abbrev pub is_zero_ℤ : ℤ → Bool
is_zero_ℤ (pos zero) = true
is_zero_ℤ (pos (suc n)) = false
is_zero_ℤ (negsuc n) = false

-- A JavaScript number as `Number.isSafeInteger` sees it: an integer, or no integer at all.
pub data Number : Type 0 where
  integer : ℤ → Number
  not_integer : Number

abbrev pub max_safe_integer : ℕ
max_safe_integer = 9007199254740991
