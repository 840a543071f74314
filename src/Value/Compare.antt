-- ===== src/Value/Compare.antt =====
-- lib/eval/value.cpp: what the comparisons compute once both operands have the types that they
-- require: the lambdas handed to `apply_binary`.
use enlightenedc.Prelude.{not, leb, ltb, ◌==◌}
use enlightenedc.Outcome.{Outcome, ok, fail, internal_error}
use enlightenedc.Float.{Floats}
use enlightenedc.Word.{eq_ℤ, lt_ℤ, le_ℤ}
use enlightenedc.Value.{Value}

module _ ⦃F : Floats⦄ where
  unfoldable pub compute_eq : Value F → Value F → Outcome (Value F)
  compute_eq (Value.i32 a) (Value.i32 b) = ok (Value.bool (eq_ℤ a b))
  compute_eq (Value.i64 a) (Value.i64 b) = ok (Value.bool (eq_ℤ a b))
  compute_eq (Value.u32 a) (Value.u32 b) = ok (Value.bool (a == b))
  compute_eq (Value.u64 a) (Value.u64 b) = ok (Value.bool (a == b))
  compute_eq (Value.f32 a) (Value.f32 b) = ok (Value.bool (F.float.eq a b))
  compute_eq (Value.f64 a) (Value.f64 b) = ok (Value.bool (F.double.eq a b))
  compute_eq _ _ = fail internal_error

  unfoldable pub compute_ne : Value F → Value F → Outcome (Value F)
  compute_ne (Value.i32 a) (Value.i32 b) = ok (Value.bool (not (eq_ℤ a b)))
  compute_ne (Value.i64 a) (Value.i64 b) = ok (Value.bool (not (eq_ℤ a b)))
  compute_ne (Value.u32 a) (Value.u32 b) = ok (Value.bool (not (a == b)))
  compute_ne (Value.u64 a) (Value.u64 b) = ok (Value.bool (not (a == b)))
  compute_ne (Value.f32 a) (Value.f32 b) = ok (Value.bool (not (F.float.eq a b)))
  compute_ne (Value.f64 a) (Value.f64 b) = ok (Value.bool (not (F.double.eq a b)))
  compute_ne _ _ = fail internal_error

  unfoldable pub compute_lt : Value F → Value F → Outcome (Value F)
  compute_lt (Value.i32 a) (Value.i32 b) = ok (Value.bool (lt_ℤ a b))
  compute_lt (Value.i64 a) (Value.i64 b) = ok (Value.bool (lt_ℤ a b))
  compute_lt (Value.u32 a) (Value.u32 b) = ok (Value.bool (ltb a b))
  compute_lt (Value.u64 a) (Value.u64 b) = ok (Value.bool (ltb a b))
  compute_lt (Value.f32 a) (Value.f32 b) = ok (Value.bool (F.float.lt a b))
  compute_lt (Value.f64 a) (Value.f64 b) = ok (Value.bool (F.double.lt a b))
  compute_lt _ _ = fail internal_error

  unfoldable pub compute_gt : Value F → Value F → Outcome (Value F)
  compute_gt (Value.i32 a) (Value.i32 b) = ok (Value.bool (lt_ℤ b a))
  compute_gt (Value.i64 a) (Value.i64 b) = ok (Value.bool (lt_ℤ b a))
  compute_gt (Value.u32 a) (Value.u32 b) = ok (Value.bool (ltb b a))
  compute_gt (Value.u64 a) (Value.u64 b) = ok (Value.bool (ltb b a))
  compute_gt (Value.f32 a) (Value.f32 b) = ok (Value.bool (F.float.lt b a))
  compute_gt (Value.f64 a) (Value.f64 b) = ok (Value.bool (F.double.lt b a))
  compute_gt _ _ = fail internal_error

  unfoldable pub compute_le : Value F → Value F → Outcome (Value F)
  compute_le (Value.i32 a) (Value.i32 b) = ok (Value.bool (le_ℤ a b))
  compute_le (Value.i64 a) (Value.i64 b) = ok (Value.bool (le_ℤ a b))
  compute_le (Value.u32 a) (Value.u32 b) = ok (Value.bool (leb a b))
  compute_le (Value.u64 a) (Value.u64 b) = ok (Value.bool (leb a b))
  compute_le (Value.f32 a) (Value.f32 b) = ok (Value.bool (F.float.le a b))
  compute_le (Value.f64 a) (Value.f64 b) = ok (Value.bool (F.double.le a b))
  compute_le _ _ = fail internal_error

  unfoldable pub compute_ge : Value F → Value F → Outcome (Value F)
  compute_ge (Value.i32 a) (Value.i32 b) = ok (Value.bool (le_ℤ b a))
  compute_ge (Value.i64 a) (Value.i64 b) = ok (Value.bool (le_ℤ b a))
  compute_ge (Value.u32 a) (Value.u32 b) = ok (Value.bool (leb b a))
  compute_ge (Value.u64 a) (Value.u64 b) = ok (Value.bool (leb b a))
  compute_ge (Value.f32 a) (Value.f32 b) = ok (Value.bool (F.float.le b a))
  compute_ge (Value.f64 a) (Value.f64 b) = ok (Value.bool (F.double.le b a))
  compute_ge _ _ = fail internal_error
