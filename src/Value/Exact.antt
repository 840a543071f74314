-- ===== src/Value/Exact.antt =====
-- Integer arithmetic of the evaluator against the integers.
use enlightenedc.Prelude.{ℕ, ◌^◌, ◌≡◌, ◌∙◌, true, some, arith, if◌then◌else◌, Bool, false, refl}
use enlightenedc.Prelude.Int.{ℤ, pos, ◌+ℤ◌, ◌-ℤ◌, ◌*ℤ◌}
use enlightenedc.Token.Kinds.{PrimType, BinaryOp}
use enlightenedc.Primitive.{pr_check_binary_op}
use enlightenedc.Outcome.{Outcome, ok, fail, undefined_behaviour, internal_error, ◌>>=◌}
use enlightenedc.Float.{Floats}
use enlightenedc.Word.{fits, to_bits}
use enlightenedc.Value.{Value}
use enlightenedc.Value.Cast.{pr_cast}
use enlightenedc.Value.Arith.{compute_add, compute_sub, compute_mul}
use enlightenedc.Value.Binary.{coerced, apply_binary, binary_op}
use enlightenedc.Value.HasType.{HasType, primtype-HasType, apply_binary-primtype}
use enlightenedc.Value.InRange.{in_range, pr_cast_self}
use enlightenedc.Value.Safety.{wide_int}

abbrev pub is_ring : BinaryOp → Bool
is_ring BinaryOp.plus = true
is_ring BinaryOp.minus = true
is_ring BinaryOp.mul = true
is_ring _ = false

-- The integer operation behind an arithmetic operator.
abbrev pub int_op : BinaryOp → ℤ → ℤ → ℤ
int_op BinaryOp.plus a b = a +ℤ b
int_op BinaryOp.minus a b = a -ℤ b
int_op BinaryOp.mul a b = a *ℤ b
int_op _ a b = a

module _ ⦃F : Floats⦄ where
  -- The integer that a value of an integer type stands for.
  abbrev pub int_of : Value F → ℤ
  int_of (Value.i8 z) = z
  int_of (Value.i16 z) = z
  int_of (Value.i32 z) = z
  int_of (Value.i64 z) = z
  int_of (Value.u8 n) = pos n
  int_of (Value.u16 n) = pos n
  int_of (Value.u32 n) = pos n
  int_of (Value.u64 n) = pos n
  int_of _ = pos 0

  abbrev signed_result : ℕ → (ℤ → Value F) → ℤ → Outcome (Value F)
  signed_result m make z = if fits m z then ok (make z) else fail undefined_behaviour

  -- An integer as the result of an operation at a type of 4 or 8 bytes: a signed type must be able to
  -- hold it, and an unsigned one takes its residue.
  abbrev pub int_result : PrimType → ℤ → Outcome (Value F)
  int_result PrimType.i32 z = signed_result (2 ^ 32) Value.i32 z
  int_result PrimType.i64 z = signed_result (2 ^ 64) Value.i64 z
  int_result PrimType.u32 z = ok (Value.u32 (to_bits (2 ^ 32) z))
  int_result PrimType.u64 z = ok (Value.u64 (to_bits (2 ^ 64) z))
  int_result _ z = fail internal_error

  pr_cast-int_result :
      (t : PrimType) (z : ℤ) → wide_int t ≡ true → (int_result t z >>= pr_cast t) ≡ int_result t z
  unfolding pr_cast
  pr_cast-int_result PrimType.i32 z h = ground arith
  pr_cast-int_result _ z h = ground arith

  -- On two values of one wide integer type an operator is its computation, if the conversion of the
  -- result changes nothing.
  pub at_one_type :
      (op : BinaryOp) (compute : Value F → Value F → Outcome (Value F)) {t : PrimType}
      {l r : Value F} (o : Outcome (Value F))
      → pr_check_binary_op op t t ≡ some (record { lhs_type = t; rhs_type = t; expr_type = t })
      → HasType t l
      → HasType t r
      → in_range l ≡ true
      → in_range r ≡ true
      → (o >>= pr_cast t) ≡ o
      → compute l r ≡ o
      → apply_binary op compute l r ≡ o
  at_one_type op compute {t} {l} {r} o types hl hr rl rr c e =
      apply_binary-primtype op compute l r (primtype-HasType hl) (primtype-HasType hr)
      ∙ rw types (unfold coerced in rw (pr_cast_self hl rl, pr_cast_self hr rr, e) c)

  compute_add-int :
      {t : PrimType} {l r : Value F}
      → HasType t l
      → HasType t r
      → wide_int t ≡ true
      → compute_add l r ≡ int_result t (int_of l +ℤ int_of r)
  unfolding compute_add
  compute_add-int (HasType.i8 a) b w = cc
  compute_add-int _ (HasType.i32 b) w = ground arith
  compute_add-int _ _ w = ground arith

  compute_sub-int :
      {t : PrimType} {l r : Value F}
      → HasType t l
      → HasType t r
      → in_range l ≡ true
      → in_range r ≡ true
      → wide_int t ≡ true
      → compute_sub l r ≡ int_result t (int_of l -ℤ int_of r)
  unfolding compute_sub
  compute_sub-int (HasType.i8 a) b hl hr w = cc
  compute_sub-int _ (HasType.i32 b) hl hr w = ground arith
  compute_sub-int _ _ hl hr w = ground arith

  compute_mul-int :
      {t : PrimType} {l r : Value F}
      → HasType t l
      → HasType t r
      → wide_int t ≡ true
      → compute_mul l r ≡ int_result t (int_of l *ℤ int_of r)
  unfolding compute_mul
  compute_mul-int (HasType.i8 a) b w = cc
  compute_mul-int _ (HasType.i32 b) w = ground arith
  compute_mul-int _ _ w = ground arith

  ring_types :
      (op : BinaryOp) (t : PrimType)
      → is_ring op ≡ true
      → wide_int t ≡ true
      → pr_check_binary_op op t t ≡ some (record { lhs_type = t; rhs_type = t; expr_type = t })
  unfolding pr_check_binary_op
  ring_types BinaryOp.plus PrimType.i32 h w = refl
  ring_types BinaryOp.plus _ h w = ground arith
  ring_types BinaryOp.minus PrimType.i32 h w = refl
  ring_types BinaryOp.minus _ h w = ground arith
  ring_types BinaryOp.mul PrimType.i32 h w = refl
  ring_types BinaryOp.mul _ h w = ground arith
  ring_types _ t h w = cc

  -- Sums, differences and products of two values of one integer type of 4 or 8 bytes are those of
  -- the integers: exact at a signed type, where a result that the type cannot hold is undefined
  -- behaviour of the compiler itself, and reduced modulo 2 ^ 32 or 2 ^ 64 at an unsigned one.
  pub binary_op-exact :
      (op : BinaryOp) {t : PrimType} {l r : Value F}
      → is_ring op ≡ true
      → wide_int t ≡ true
      → HasType t l
      → HasType t r
      → in_range l ≡ true
      → in_range r ≡ true
      → binary_op op l r ≡ int_result t (int_op op (int_of l) (int_of r))
  unfolding binary_op
  binary_op-exact BinaryOp.plus {t} k w hl hr rl rr =
      at_one_type BinaryOp.plus compute_add _ (ring_types BinaryOp.plus t refl w) hl hr rl rr
        (pr_cast-int_result t _ w) (compute_add-int hl hr w)
  binary_op-exact BinaryOp.minus {t} k w hl hr rl rr =
      at_one_type BinaryOp.minus compute_sub _ (ring_types BinaryOp.minus t refl w) hl hr rl rr
        (pr_cast-int_result t _ w) (compute_sub-int hl hr rl rr w)
  binary_op-exact BinaryOp.mul {t} k w hl hr rl rr =
      at_one_type BinaryOp.mul compute_mul _ (ring_types BinaryOp.mul t refl w) hl hr rl rr
        (pr_cast-int_result t _ w) (compute_mul-int hl hr w)
  binary_op-exact _ k w hl hr rl rr = cc
