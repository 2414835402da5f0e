-- ===== src/Base/Int.antt =====
-- Signed integers over the native numbers, and the casts that C makes between widths.
use Prim.Native.Nat.{ℕ, suc, ◌+◌, ◌-◌, ◌%◌, ◌^◌, ◌<◌, ◌≤◌}
use mathlib.Core.Path.{◌≡◌}
use native.Mathlib.Omega.{arith}
use mathlib.Core.Bool.{Bool}
use droidctl.Base.Tests.{ltb, if◌then◌else◌}

-- `negsuc n` is -(n + 1).
pub data ℤ : Type 0 where
  pos : ℕ → ℤ
  negsuc : ℕ → ℤ

abbrev pub pos_part : ℤ → ℕ
pos_part (pos n) = n
pos_part (negsuc n) = 0

abbrev pub neg_part : ℤ → ℕ
neg_part (pos n) = 0
neg_part (negsuc n) = suc n

infix 50 ◌≤ℤ◌
abbrev pub ◌≤ℤ◌ : ℤ → ℤ → Type 0
a ≤ℤ b = pos_part a + neg_part b ≤ pos_part b + neg_part a

abbrev pub ltb_ℤ : ℤ → ℤ → Bool
ltb_ℤ a b = ltb (pos_part a + neg_part b) (pos_part b + neg_part a)

-- The conversion of an integer to a `w`-bit unsigned type.
abbrev pub to_unsigned : ℕ → ℤ → ℕ
to_unsigned w (pos n) = n % 2 ^ w
to_unsigned w (negsuc n) = 2 ^ w - 1 - n % 2 ^ w

-- The integer that a `w`-bit pattern stands for in two's complement.
abbrev pub to_signed : ℕ → ℕ → ℤ
to_signed w n = if ltb n (2 ^ (w - 1)) then pos n else negsuc (2 ^ w - 1 - n)

abbrev pub IsInt32 : ℤ → Type 0
IsInt32 z = (pos_part z < 2 ^ 31) × (neg_part z ≤ 2 ^ 31)

pub to_unsigned-lt : (z : ℤ) → to_unsigned 32 z < 2 ^ 32
to_unsigned-lt z = ground arith

pub to_signed-to_unsigned : (z : ℤ) → IsInt32 z → to_signed 32 (to_unsigned 32 z) ≡ z
to_signed-to_unsigned (pos n) h = ground arith
to_signed-to_unsigned (negsuc n) h = ground arith
