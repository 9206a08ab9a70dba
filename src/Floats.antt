-- ===== src/Floats.antt =====
-- The floating-point arithmetic that the C compiler and the hardware give the program: `double`,
-- `long double` and the conversions. It is a parameter of every definition that uses it; what a
-- theorem needs of it is a hypothesis of that theorem.
use libfaketime.Base.{Bool}
use libfaketime.Base.Int.{ℤ}

pub record Floats : Type 1 where
  pub Double : Type 0
  pub LongDouble : Type 0
  -- (long double)n and (long double)d
  pub of_ℤ : ℤ → LongDouble
  pub of_double : Double → LongDouble
  pub mul : LongDouble → LongDouble → LongDouble
  pub div : LongDouble → LongDouble → LongDouble
  pub add : LongDouble → LongDouble → LongDouble
  pub sub : LongDouble → LongDouble → LongDouble
  pub lt : LongDouble → LongDouble → Bool
  pub le : LongDouble → LongDouble → Bool
  pub is_finite : LongDouble → Bool
  -- floorl, ceill, and the conversion to an integer, which drops the fraction
  pub floor : LongDouble → LongDouble
  pub ceil : LongDouble → LongDouble
  pub trunc : LongDouble → ℤ
  -- 1.0 / d, d * e, d + e, d / e, d - e, floor(d), isfinite(d), d > 0 and the conversions of a
  -- double
  pub inverse : Double → Double
  pub times : Double → Double → Double
  pub plus : Double → Double → Double
  pub quotient : Double → Double → Double
  pub minus : Double → Double → Double
  pub floor_double : Double → Double
  pub is_finite_double : Double → Bool
  pub is_positive : Double → Bool
  pub double_of_ℤ : ℤ → Double
  pub trunc_double : Double → ℤ
