-- ===== src/Value/Promoted.antt =====
-- The types of the results of the evaluator's unary operators.
use enlightenedc.Prelude.{◌≡◌, some, arith}
use enlightenedc.Token.Kinds.{PrimType}
use enlightenedc.Outcome.{ok}
use enlightenedc.Float.{Floats}
use enlightenedc.Value.{Value, primtype, valuetype, prim_of_enum}
use enlightenedc.Value.Unary.{tilde_op, neg_op, pos_op}
use enlightenedc.Value.HasType.{HasType}

-- What C++ promotes an operand of each type to; unlike `pr_single_promote`, to `int` for the narrow
-- unsigned types too.
abbrev pub int_promote : PrimType → PrimType
int_promote PrimType.i64 = PrimType.i64
int_promote PrimType.u64 = PrimType.u64
int_promote PrimType.u32 = PrimType.u32
int_promote PrimType.f32 = PrimType.f32
int_promote PrimType.f64 = PrimType.f64
int_promote _ = PrimType.i32

module _ ⦃F : Floats⦄ where
  -- Minus on a value of a primitive type yields one of the type that C++ promotes that type to, not of
  -- the operand's own.
  pub primtype-neg_op :
      {t : PrimType} {v w : Value F}
      → HasType t v
      → neg_op v ≡ ok w
      → primtype w ≡ some (int_promote t)
  unfolding neg_op primtype valuetype prim_of_enum
  primtype-neg_op (HasType.i8 z) h = ground arith
  primtype-neg_op _ h = ground arith

  -- So does plus.
  pub primtype-pos_op :
      {t : PrimType} {v w : Value F}
      → HasType t v
      → pos_op v ≡ ok w
      → primtype w ≡ some (int_promote t)
  unfolding pos_op primtype
  primtype-pos_op (HasType.i8 z) h = ground arith
  primtype-pos_op _ h = ground arith

  -- And the complement.
  pub primtype-tilde_op :
      {t : PrimType} {v w : Value F}
      → HasType t v
      → tilde_op v ≡ ok w
      → primtype w ≡ some (int_promote t)
  unfolding tilde_op primtype
  primtype-tilde_op (HasType.i8 z) h = ground arith
  primtype-tilde_op _ h = ground arith
