-- ===== src/Value/Typing.antt =====
-- The types of the results of the evaluator's binary operators.
use enlightenedc.Prelude.{◌≡◌, refl, sym, ◌∙◌, false, some}
use enlightenedc.Token.Kinds.{PrimType, BinaryOp}
use enlightenedc.Primitive.{PrimExprTypes, pr_check_binary_op}
use enlightenedc.Outcome.{Outcome, ok}
use enlightenedc.Float.{Floats}
use enlightenedc.Value.{Value, primtype, is_pointer}
use enlightenedc.Value.Binary.{apply_binary, relational, binary_op}
use enlightenedc.Value.HasType.{primtype-apply_binary}

module _ ⦃F : Floats⦄ where
  -- A value with a primitive type is no pointer.
  pub is_pointer-primtype :
      (v : Value F) {a : PrimType} → primtype v ≡ some a → is_pointer v ≡ false
  unfolding primtype is_pointer
  is_pointer-primtype (Value.ptr p) h = cc
  is_pointer-primtype _ h = refl

  pub relational-primtype :
      (op : BinaryOp) (compute : Value F → Value F → Outcome (Value F)) (l r : Value F)
      {a b : PrimType}
      → primtype l ≡ some a
      → primtype r ≡ some b
      → relational op compute l r ≡ apply_binary op compute l r
  unfolding relational
  relational-primtype op compute l r ha hb = rw (is_pointer-primtype l ha, is_pointer-primtype r hb)

  compared :
      (op : BinaryOp) (compute : Value F → Value F → Outcome (Value F)) (l r : Value F)
      {a b : PrimType} {v : Value F}
      → primtype l ≡ some a
      → primtype r ≡ some b
      → relational op compute l r ≡ ok v
      → (types : PrimExprTypes) × (pr_check_binary_op op a b ≡ some types)
        × (primtype v ≡ some types.expr_type)
  compared op compute l r ha hb h =
      primtype-apply_binary op compute l r ha hb
        (sym (relational-primtype op compute l r ha hb) ∙ h)

  -- What an operator yields on values of primitive type has the type that `pr_check_binary_op` gives
  -- the expression.
  pub primtype-binary_op :
      (op : BinaryOp) (l r : Value F) {a b : PrimType} {v : Value F}
      → primtype l ≡ some a
      → primtype r ≡ some b
      → binary_op op l r ≡ ok v
      → (types : PrimExprTypes) × (pr_check_binary_op op a b ≡ some types)
        × (primtype v ≡ some types.expr_type)
  unfolding binary_op
  primtype-binary_op BinaryOp.or l r ha hb h = primtype-apply_binary BinaryOp.or _ l r ha hb h
  primtype-binary_op BinaryOp.xor l r ha hb h = primtype-apply_binary BinaryOp.xor _ l r ha hb h
  primtype-binary_op BinaryOp.and l r ha hb h = primtype-apply_binary BinaryOp.and _ l r ha hb h
  primtype-binary_op BinaryOp.lshift l r ha hb h =
      primtype-apply_binary BinaryOp.lshift _ l r ha hb h
  primtype-binary_op BinaryOp.rshift l r ha hb h =
      primtype-apply_binary BinaryOp.rshift _ l r ha hb h
  primtype-binary_op BinaryOp.modulo l r ha hb h =
      primtype-apply_binary BinaryOp.modulo _ l r ha hb h
  primtype-binary_op BinaryOp.eq l r ha hb h = compared BinaryOp.eq _ l r ha hb h
  primtype-binary_op BinaryOp.ne l r ha hb h = compared BinaryOp.ne _ l r ha hb h
  primtype-binary_op BinaryOp.lt l r ha hb h = compared BinaryOp.lt _ l r ha hb h
  primtype-binary_op BinaryOp.gt l r ha hb h = compared BinaryOp.gt _ l r ha hb h
  primtype-binary_op BinaryOp.le l r ha hb h = compared BinaryOp.le _ l r ha hb h
  primtype-binary_op BinaryOp.ge l r ha hb h = compared BinaryOp.ge _ l r ha hb h
  primtype-binary_op BinaryOp.plus l r ha hb h = primtype-apply_binary BinaryOp.plus _ l r ha hb h
  primtype-binary_op BinaryOp.minus l r ha hb h = primtype-apply_binary BinaryOp.minus _ l r ha hb h
  primtype-binary_op BinaryOp.mul l r ha hb h = primtype-apply_binary BinaryOp.mul _ l r ha hb h
  primtype-binary_op BinaryOp.div l r ha hb h = primtype-apply_binary BinaryOp.div _ l r ha hb h
  primtype-binary_op _ l r ha hb h = cc
