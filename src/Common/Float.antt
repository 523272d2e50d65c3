-- ===== src/Common/Float.antt =====
-- What the code does with a float64, as an interface: the operations of Go's language and of its
-- package math that it calls. No arithmetic law is assumed of it.
use Prim.Native.Nat.{ℕ}
use mathlib.Core.Path.{◌≡◌}
use mathlib.Core.Bool.{Bool, true, false}
use ts2phc_go.Common.Int.{ℤ}

pub record Float (W : Type 0) : Type 0 where
  pub add : W → W → W
  pub sub : W → W → W
  pub mul : W → W → W
  pub div : W → W → W
  pub neg : W → W
  pub abs : W → W
  pub round : W → W
  pub pow : W → W → W
  -- `x < y`, which is false where one is NaN.
  pub lt : W → W → Bool
  -- `float64(n)` and `int64(x)`.
  pub of_int : ℤ → W
  pub to_int : W → ℤ
  -- `literal m e` is the constant m / 10^e.
  pub literal : ℤ → ℕ → W

-- Go's conversions of a float64 to the smaller integers, which depend on the machine where the
-- float is out of their range.
pub record Casts (W : Type 0) : Type 0 where
  pub to_int32 : W → ℤ
  pub to_uint32 : W → ℕ
  pub to_uint16 : W → ℕ
  pub to_int16 : W → ℤ
  pub to_uint8 : W → ℕ
  pub to_int8 : W → ℤ

-- What IEEE 754 says of `<` and of the sign, NaN and the infinities included.
pub record IsOrdered (W : Type 0) ⦃f : Float W⦄ : Type 0 where
  pub lt_irrefl : (x : W) → f.lt x x ≡ false
  pub lt_asymm : (x y : W) → f.lt x y ≡ true → f.lt y x ≡ false
  pub lt_neg : (x y : W) → f.lt (f.neg x) (f.neg y) ≡ f.lt y x

-- Changing the sign twice changes nothing.
pub record IsSigned (W : Type 0) ⦃f : Float W⦄ : Type 0 where
  pub neg_neg : (x : W) → f.neg (f.neg x) ≡ x
