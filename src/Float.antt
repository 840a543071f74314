-- ===== src/Float.antt =====
-- The floating-point arithmetic of C++, which the program uses and does not implement: types for
-- `float` and `double` and the operations that the evaluator calls.
use enlightenedc.Prelude.{ℕ, Bool, Option}
use enlightenedc.Prelude.Int.{ℤ}

-- The operations on one floating type. `to_int` drops the fraction, and gives nothing for a value
-- that is no number or is infinite; `bits` is the bit pattern.
pub record FloatOps (A : Type 0) : Type 0 where
  pub add : A → A → A
  pub sub : A → A → A
  pub mul : A → A → A
  pub div : A → A → A
  pub neg : A → A
  pub eq : A → A → Bool
  pub lt : A → A → Bool
  pub le : A → A → Bool
  pub of_int : ℤ → A
  pub to_int : A → Option ℤ
  pub bits : A → ℕ

pub record Floats : Type 1 where
  pub Float : Type 0
  pub Double : Type 0
  pub float : FloatOps Float
  pub double : FloatOps Double
  pub to_double : Float → Double
  pub to_float : Double → Float
