-- ===== src/Value/Ranges.antt =====
-- The evaluator's binary operators stay within what the C++ objects can hold.
use enlightenedc.Prelude.{◌≡◌, Bool, true, false, ◌||◌, Option, none, some, arith, if◌then◌else◌}
use enlightenedc.Token.Kinds.{PrimType, BinaryOp}
use enlightenedc.Primitive.{PrimExprTypes, pr_check_binary_op}
use enlightenedc.Outcome.{Outcome, ok, >>=-eq-ok}
use enlightenedc.Float.{Floats}
use enlightenedc.Value.{Value, primtype, is_pointer}
use enlightenedc.Value.Cast.{pr_cast}
use enlightenedc.Value.Binary.{
  coerced, apply_typed, apply_binary, apply_binary_ptr, relational, binary_op,
}
use enlightenedc.Value.InRange.{in_range, in_range-pr_cast}

module _ ⦃F : Floats⦄ where
  in_range-coerced :
      (compute : Value F → Value F → Outcome (Value F)) (l r : Value F) (o : Option PrimExprTypes)
      {v : Value F}
      → coerced compute l r o ≡ ok v
      → in_range v ≡ true
  unfolding coerced
  in_range-coerced compute l r none h = cc
  in_range-coerced compute l r (some types) h =
      let (lop, hl, h₁) = >>=-eq-ok (pr_cast types.lhs_type l) _ h in
      let (rop, hr, h₂) = >>=-eq-ok (pr_cast types.rhs_type r) _ h₁ in
      let (v, hv, h₃) = >>=-eq-ok (compute lop rop) _ h₂ in in_range-pr_cast types.expr_type v h₃

  in_range-apply_typed :
      (op : BinaryOp) (compute : Value F → Value F → Outcome (Value F)) (l r : Value F)
      (a b : Option PrimType) {v : Value F}
      → apply_typed op compute l r a b ≡ ok v
      → in_range v ≡ true
  unfolding apply_typed
  in_range-apply_typed op compute l r none b h = cc
  in_range-apply_typed op compute l r (some a) none h = cc
  in_range-apply_typed op compute l r (some a) (some b) h =
      in_range-coerced compute l r (pr_check_binary_op op a b) h

  in_range-apply_binary :
      (op : BinaryOp) (compute : Value F → Value F → Outcome (Value F)) (l r : Value F)
      {v : Value F}
      → apply_binary op compute l r ≡ ok v
      → in_range v ≡ true
  unfolding apply_binary
  in_range-apply_binary op compute l r h =
      in_range-apply_typed op compute l r (primtype l) (primtype r) h

  in_range-apply_binary_ptr :
      (op : BinaryOp) (l r : Value F) {v : Value F}
      → apply_binary_ptr op l r ≡ ok v
      → in_range v ≡ true
  unfolding apply_binary_ptr
  in_range-apply_binary_ptr BinaryOp.eq l r h = ground arith
  in_range-apply_binary_ptr _ l r h = ground arith

  in_range-either :
      (b : Bool) (m o : Outcome (Value F)) {v : Value F}
      → (if b then m else o) ≡ ok v
      → (m ≡ ok v → in_range v ≡ true)
      → (o ≡ ok v → in_range v ≡ true)
      → in_range v ≡ true
  in_range-either true m o h k n = k h
  in_range-either false m o h k n = n h

  in_range-relational :
      (op : BinaryOp) (compute : Value F → Value F → Outcome (Value F)) (l r : Value F)
      {v : Value F}
      → relational op compute l r ≡ ok v
      → in_range v ≡ true
  unfolding relational
  in_range-relational op compute l r h =
      in_range-either (is_pointer l || is_pointer r) (apply_binary_ptr op l r)
        (apply_binary op compute l r) h (in_range-apply_binary_ptr op l r)
        (in_range-apply_binary op compute l r)

  -- Whatever a binary operator yields is a value that an object of its type can hold.
  pub in_range-binary_op :
      (op : BinaryOp) (l r : Value F) {v : Value F} → binary_op op l r ≡ ok v → in_range v ≡ true
  unfolding binary_op
  in_range-binary_op BinaryOp.or l r h = in_range-apply_binary BinaryOp.or _ l r h
  in_range-binary_op BinaryOp.xor l r h = in_range-apply_binary BinaryOp.xor _ l r h
  in_range-binary_op BinaryOp.and l r h = in_range-apply_binary BinaryOp.and _ l r h
  in_range-binary_op BinaryOp.lshift l r h = in_range-apply_binary BinaryOp.lshift _ l r h
  in_range-binary_op BinaryOp.rshift l r h = in_range-apply_binary BinaryOp.rshift _ l r h
  in_range-binary_op BinaryOp.modulo l r h = in_range-apply_binary BinaryOp.modulo _ l r h
  in_range-binary_op BinaryOp.plus l r h = in_range-apply_binary BinaryOp.plus _ l r h
  in_range-binary_op BinaryOp.minus l r h = in_range-apply_binary BinaryOp.minus _ l r h
  in_range-binary_op BinaryOp.mul l r h = in_range-apply_binary BinaryOp.mul _ l r h
  in_range-binary_op BinaryOp.div l r h = in_range-apply_binary BinaryOp.div _ l r h
  in_range-binary_op BinaryOp.eq l r h = in_range-relational BinaryOp.eq _ l r h
  in_range-binary_op BinaryOp.ne l r h = in_range-relational BinaryOp.ne _ l r h
  in_range-binary_op BinaryOp.lt l r h = in_range-relational BinaryOp.lt _ l r h
  in_range-binary_op BinaryOp.gt l r h = in_range-relational BinaryOp.gt _ l r h
  in_range-binary_op BinaryOp.le l r h = in_range-relational BinaryOp.le _ l r h
  in_range-binary_op BinaryOp.ge l r h = in_range-relational BinaryOp.ge _ l r h
  in_range-binary_op _ l r h = cc
