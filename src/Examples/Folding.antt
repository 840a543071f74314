-- ===== src/Examples/Folding.antt =====
-- Evaluation and folding of concrete expressions.
use enlightenedc.Value.Arith.{compute_add}
use enlightenedc.Mir.Preserve.{eval-fold_operand}
use enlightenedc.Mir.Yields.{HasEff-eval}
use enlightenedc.Mir.Sound.{sound-eval}
use enlightenedc.Mir.Eval.{eval, eval_binary, eval_unary, eval_ident}
use enlightenedc.Mir.Strict.{caught, caught-fold_operand}
use enlightenedc.Mir.Fold.{fold_operand, eval_and_expr, literal_of, at_type, fold_with}
use enlightenedc.Value.Safety.{sound}
use enlightenedc.Primitive.{pr_check_binary_op, unaryop_is_const_foldable}
use enlightenedc.Value.Unary.{tilde_op}
use enlightenedc.Prelude.{◌≡◌, refl, true, false, some, subst, some_eq}
use enlightenedc.Prelude.Int.{pos, negsuc}
use enlightenedc.Token.Kinds.{PrimType, BinaryOp, UnaryOp}
use enlightenedc.Outcome.{ok}
use enlightenedc.Value.{Value, primtype}
use enlightenedc.Value.HasType.{HasType}
use enlightenedc.Mir.{Expr, Ident, EffType, is_const_foldable, ident_is_const_foldable}
use enlightenedc.Mir.Typed.{Typed, HasEff, unnarrowed}
use enlightenedc.Examples.{whole_floats}
use enlightenedc.Value.Binary.{binary_op, apply_binary, apply_typed, coerced}
use enlightenedc.Value.Cast.{pr_cast}

abbrev int_type : EffType
int_type = EffType.prim PrimType.i32

-- A constant of value 7, and the sum of it and 5.
abbrev seven : Ident whole_floats
seven = record { is_var = true; value = some (Value.i32 (pos 7)); funcparam = false }

abbrev sum : Expr whole_floats
sum =
    Expr.binary BinaryOp.plus (Expr.ident seven int_type)
      (Expr.literal (Value.i32 (pos 5)) int_type) int_type

sum-Typed : Typed int_type sum
unfolding pr_check_binary_op
sum-Typed =
    Typed.binary
      (record { lhs_type = PrimType.i32; rhs_type = PrimType.i32; expr_type = PrimType.i32 }) refl
      refl
      (Typed.ident seven λ v h. subst (HasEff int_type) (some_eq h) (HasType.i32 (pos 7), refl))
      (Typed.literal (HasType.i32 (pos 5), refl))

sum-unnarrowed : unnarrowed sum ≡ true
unfolding unnarrowed
sum-unnarrowed = refl

sum_folds : fold_operand sum ≡ ok (Expr.literal (Value.i32 (pos 12)) int_type)
unfolding fold_operand eval_and_expr literal_of at_type eval eval_binary eval_ident binary_op
    apply_binary apply_typed coerced compute_add pr_cast primtype pr_check_binary_op fold_with
    is_const_foldable ident_is_const_foldable
sum_folds = refl

sum_evaluates : eval sum ≡ ok (Value.i32 (pos 12))
unfolding eval eval_binary eval_ident binary_op apply_binary apply_typed coerced compute_add pr_cast
    primtype pr_check_binary_op
sum_evaluates = refl

fold_example : eval (Expr.literal (Value.i32 (pos 12)) int_type) ≡ eval sum
fold_example = eval-fold_operand sum-Typed sum-unnarrowed sum_folds

evaluates_example : HasEff int_type (Value.i32 (pos 12))
evaluates_example = HasEff-eval sum-Typed sum-unnarrowed sum_evaluates

sound-eval_example : sound (eval sum) ≡ true
sound-eval_example = sound-eval sum

caught_example : caught (fold_operand sum) ≡ true
caught_example = caught-fold_operand sum

-- `~x` of U8 has type U8, but evaluates to -256, an I32, which folding turns into the U8 0.
abbrev u8_type : EffType
u8_type = EffType.prim PrimType.u8

abbrev flipped : Expr whole_floats
flipped = Expr.unary UnaryOp.tilde (Expr.literal (Value.u8 255) u8_type) u8_type

flipped-Typed : Typed u8_type flipped
flipped-Typed = Typed.sign refl (Typed.literal (HasType.u8 255, refl))

flipped_evaluates : eval flipped ≡ ok (Value.i32 (negsuc 255))
unfolding eval eval_unary tilde_op
flipped_evaluates = refl

flipped_folds : fold_operand flipped ≡ ok (Expr.literal (Value.u8 0) u8_type)
unfolding fold_operand eval_and_expr literal_of at_type eval eval_unary tilde_op pr_cast fold_with
    is_const_foldable unaryop_is_const_foldable
flipped_folds = refl
