-- ===== src/Examples/Operators.antt =====
-- Operators of the evaluator at concrete inputs.
use enlightenedc.Examples.{whole_floats}
use enlightenedc.Value.Arith.{compute_add}
use enlightenedc.Token.Predicate.{relcomp}
use enlightenedc.Value.Quotient.{quotient_result, binary_op-quotient}
use enlightenedc.Value.Exact.{int_result, int_of, int_op, binary_op-exact}
use enlightenedc.Value.Progress.{sound-binary_op}
use enlightenedc.Value.Complement.{widen, binary_op-relcomp}
use enlightenedc.Value.Typing.{primtype-binary_op}
use enlightenedc.Primitive.{PrimExprTypes, pr_check_binary_op}
use enlightenedc.Value.Safety.{sound}
use enlightenedc.Value.Unary.{not_op}
use enlightenedc.Value.Cast.{pr_cast}
use enlightenedc.Prelude.{◌≡◌, refl, true, some}
use enlightenedc.Prelude.Int.{pos, negsuc}
use enlightenedc.Token.Kinds.{PrimType, BinaryOp, RelationalOp}
use enlightenedc.Outcome.{ok, ◌>>=◌}
use enlightenedc.Value.{is_float, Value, primtype}
use enlightenedc.Value.HasType.{HasType}
use enlightenedc.Value.Binary.{binary_op, apply_binary, apply_typed, coerced}

exact_example :
    binary_op BinaryOp.plus (Value.i32 (pos 2147483647)) (Value.i32 (negsuc 0))
    ≡ int_result PrimType.i32
        (int_op BinaryOp.plus (int_of (Value.i32 (pos 2147483647))) (int_of (Value.i32 (negsuc 0))))
exact_example =
    binary_op-exact BinaryOp.plus refl refl (HasType.i32 (pos 2147483647)) (HasType.i32 (negsuc 0))
      refl refl

quotient_example :
    binary_op BinaryOp.div (Value.i32 (negsuc 2147483647)) (Value.i32 (negsuc 0))
    ≡ quotient_result BinaryOp.div PrimType.i32
        (int_of (Value.i32 (negsuc 2147483647)))
        (int_of (Value.i32 (negsuc 0)))
quotient_example =
    binary_op-quotient BinaryOp.div refl refl (HasType.i32 (negsuc 2147483647))
      (HasType.i32 (negsuc 0)) refl refl

progress_example : sound (binary_op BinaryOp.lshift (Value.u8 1) (Value.i32 (pos 40))) ≡ true
progress_example = sound-binary_op BinaryOp.lshift (Value.u8 1) (Value.i32 (pos 40))

sum_is : binary_op BinaryOp.plus (Value.u8 200) (Value.u8 100) ≡ ok (Value.u32 300)
unfolding binary_op apply_binary apply_typed coerced compute_add pr_cast primtype pr_check_binary_op
sum_is = refl

typing_example :
    (types : PrimExprTypes) × (pr_check_binary_op BinaryOp.plus PrimType.u8 PrimType.u8
      ≡ some types)
    × (primtype (Value.u32 300) ≡ some types.expr_type)
unfolding primtype
typing_example = primtype-binary_op BinaryOp.plus (Value.u8 200) (Value.u8 100) refl refl sum_is

relcomp_example :
    binary_op (widen (relcomp RelationalOp.lt)) (Value.u8 1) (Value.i64 (pos 2))
    ≡ (binary_op (widen RelationalOp.lt) (Value.u8 1) (Value.i64 (pos 2)) >>= not_op)
unfolding is_float
relcomp_example = binary_op-relcomp RelationalOp.lt (Value.u8 1) (Value.i64 (pos 2)) refl refl
