-- ===== src/Examples/Whole.antt =====
-- Whole numbers in the place of floats: every operation computes, so that the code can be run.
use ts2phc_go.Common.{suc, ◌/◌, ◌^◌, ◌≡◌, true, false, arith}
use ts2phc_go.Common.Int.{ℤ, pos, negsuc, pos_part, abs_ℕ, neg_ℕ, ◌+ℤ◌, ◌-ℤ◌, ◌*ℤ◌, neg_ℤ, ltb_ℤ}
use ts2phc_go.Common.Float.{Float, Casts, IsOrdered, IsSigned}

-- The quotient, towards zero.
abbrev pub quot : ℤ → ℤ → ℤ
quot (pos m) (pos n) = pos (m / n)
quot (pos m) (negsuc n) = neg_ℕ (m / suc n)
quot (negsuc m) (pos n) = neg_ℕ (suc m / n)
quot (negsuc m) (negsuc n) = pos (suc m / suc n)

instance abbrev pub whole : Float ℤ
whole = record {
  add = λ x y. x +ℤ y;
  sub = λ x y. x -ℤ y;
  mul = λ x y. x *ℤ y;
  div = quot;
  neg = neg_ℤ;
  abs = λ x. pos (abs_ℕ x);
  round = λ x. x;
  pow = λ x y. pos 1;
  lt = ltb_ℤ;
  of_int = λ x. x;
  to_int = λ x. x;
  literal = λ m e. quot m (pos (10 ^ e));
}

-- Integers that are in range stay as they are.
instance abbrev pub whole_casts : Casts ℤ
whole_casts = record {
  to_int32 = λ x. x;
  to_uint32 = pos_part;
  to_uint16 = pos_part;
  to_int16 = λ x. x;
  to_uint8 = pos_part;
  to_int8 = λ x. x;
}

whole_irrefl : (x : ℤ) → ltb_ℤ x x ≡ false
whole_irrefl x = ground arith

whole_asymm : (x y : ℤ) → ltb_ℤ x y ≡ true → ltb_ℤ y x ≡ false
whole_asymm x y h = ground arith

whole_neg : (x y : ℤ) → ltb_ℤ (neg_ℤ x) (neg_ℤ y) ≡ ltb_ℤ y x
unfolding neg_ℤ
whole_neg x y = ground arith

pub whole-IsOrdered : IsOrdered ℤ
whole-IsOrdered = record { lt_irrefl = whole_irrefl; lt_asymm = whole_asymm; lt_neg = whole_neg }

whole_twice : (x : ℤ) → neg_ℤ (neg_ℤ x) ≡ x
unfolding neg_ℤ
whole_twice x = ground arith

pub whole-IsSigned : IsSigned ℤ
whole-IsSigned = record { neg_neg = whole_twice }
