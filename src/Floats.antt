-- ===== src/Floats.antt =====
-- The `float` of C and of Java, as far as the protocol uses it. Floating-point arithmetic is not
-- under the repository's sources: the type and its operations are a parameter.
use droidctl.Base.{ℕ, Bool}
use droidctl.Base.Int.{ℤ}

pub record Floats : Type 1 where
  pub Float : Type 0
  -- `a < b`
  pub lt : Float → Float → Bool
  pub one : Float
  pub minus_one : Float
  -- `f / 16` and `f * 16`
  pub div_16 : Float → Float
  pub mul_16 : Float → Float
  -- `(uint32_t) (f * 0x1p16f)` and `(int32_t) (f * 0x1p15f)`
  pub scale_16 : Float → ℕ
  pub scale_15 : Float → ℤ
  -- `value / 0x1p16f` and `value / 0x1p15f`
  pub unscale_16 : ℕ → Float
  pub unscale_15 : ℤ → Float
