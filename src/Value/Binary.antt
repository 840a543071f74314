-- ===== src/Value/Binary.antt =====
-- lib/eval/value.cpp: the binary operators of `Value`. Each coerces its operands to the types that
-- `pr_check_binary_op` requires, computes, and coerces the result.
use enlightenedc.Prelude.{not, ◌||◌, Option, none, some, ltb, leb, ◌==◌, if◌then◌else◌}
use enlightenedc.Token.Kinds.{PrimType, BinaryOp}
use enlightenedc.Primitive
use enlightenedc.Primitive.{PrimExprTypes}
use enlightenedc.Outcome.{
  Outcome, ok, fail, eval_semantic_error, invalid_compile_time_eval, todo, ◌>>=◌,
}
use enlightenedc.Float.{Floats}
use enlightenedc.Value.{Value, PtrValue, primtype, is_pointer}
use enlightenedc.Value.Cast.{pr_cast}
use enlightenedc.Value.Bitwise.{compute_or, compute_xor, compute_and, compute_shl, compute_shr}
use enlightenedc.Value.Arith.{compute_mod, compute_add, compute_sub, compute_mul, compute_div}
use enlightenedc.Value.Compare.{
  compute_eq, compute_ne, compute_lt, compute_gt, compute_le, compute_ge,
}

module _ ⦃F : Floats⦄ where
  -- The steps after `pr_check_binary_op`.
  unfoldable pub coerced :
      (Value F → Value F → Outcome (Value F))
      → Value F
      → Value F
      → Option PrimExprTypes
      → Outcome (Value F)
  coerced compute l r none = fail eval_semantic_error
  coerced compute l r (some types) = do
    lop ← pr_cast types.lhs_type l
    rop ← pr_cast types.rhs_type r
    v ← compute lop rop
    pr_cast types.expr_type v

  unfoldable pub apply_typed :
      BinaryOp
      → (Value F → Value F → Outcome (Value F))
      → Value F
      → Value F
      → Option PrimType
      → Option PrimType
      → Outcome (Value F)
  apply_typed op compute l r (some lt) (some rt) =
      coerced compute l r (Primitive.pr_check_binary_op op lt rt)
  apply_typed op compute l r _ _ = fail eval_semantic_error

  -- `apply_binary`. A pointer has no primitive type.
  unfoldable pub apply_binary :
      BinaryOp → (Value F → Value F → Outcome (Value F)) → Value F → Value F → Outcome (Value F)
  unfolding apply_typed
  apply_binary op compute l r = apply_typed op compute l r (primtype l) (primtype r)

  -- The comparison of two addresses.
  unfoldable pub compare_ptr : BinaryOp → PtrValue → PtrValue → Outcome (Value F)
  compare_ptr BinaryOp.eq a b = ok (Value.bool (a.address == b.address))
  compare_ptr BinaryOp.ne a b = ok (Value.bool (not (a.address == b.address)))
  compare_ptr BinaryOp.lt a b = ok (Value.bool (ltb a.address b.address))
  compare_ptr BinaryOp.le a b = ok (Value.bool (leb a.address b.address))
  compare_ptr BinaryOp.gt a b = ok (Value.bool (ltb b.address a.address))
  compare_ptr BinaryOp.ge a b = ok (Value.bool (leb b.address a.address))
  compare_ptr _ a b = fail todo

  -- `apply_binary_ptr` on its path for comparisons, the only operators that call it.
  unfoldable pub apply_binary_ptr : BinaryOp → Value F → Value F → Outcome (Value F)
  unfolding compare_ptr
  apply_binary_ptr op (Value.ptr a) (Value.ptr b) = compare_ptr op a b
  apply_binary_ptr op _ _ = fail eval_semantic_error

  -- A comparison: of addresses if an operand is a pointer.
  unfoldable pub relational :
      BinaryOp → (Value F → Value F → Outcome (Value F)) → Value F → Value F → Outcome (Value F)
  unfolding is_pointer
  relational op compute l r =
      if is_pointer l || is_pointer r then apply_binary_ptr op l r else apply_binary op compute l r

  -- The operators of `Value`, as `ConstEvaluator` chooses among them. It settles `&&` and `||` before
  -- it comes here, and knows no comma.
  unfoldable pub binary_op : BinaryOp → Value F → Value F → Outcome (Value F)
  binary_op BinaryOp.or = apply_binary BinaryOp.or compute_or
  binary_op BinaryOp.xor = apply_binary BinaryOp.xor compute_xor
  binary_op BinaryOp.and = apply_binary BinaryOp.and compute_and
  binary_op BinaryOp.lshift = apply_binary BinaryOp.lshift compute_shl
  binary_op BinaryOp.rshift = apply_binary BinaryOp.rshift compute_shr
  binary_op BinaryOp.modulo = apply_binary BinaryOp.modulo compute_mod
  binary_op BinaryOp.eq = relational BinaryOp.eq compute_eq
  binary_op BinaryOp.ne = relational BinaryOp.ne compute_ne
  binary_op BinaryOp.lt = relational BinaryOp.lt compute_lt
  binary_op BinaryOp.gt = relational BinaryOp.gt compute_gt
  binary_op BinaryOp.le = relational BinaryOp.le compute_le
  binary_op BinaryOp.ge = relational BinaryOp.ge compute_ge
  binary_op BinaryOp.plus = apply_binary BinaryOp.plus compute_add
  binary_op BinaryOp.minus = apply_binary BinaryOp.minus compute_sub
  binary_op BinaryOp.mul = apply_binary BinaryOp.mul compute_mul
  binary_op BinaryOp.div = apply_binary BinaryOp.div compute_div
  binary_op _ = λ l r. fail invalid_compile_time_eval
