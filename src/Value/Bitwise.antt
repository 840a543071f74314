-- ===== src/Value/Bitwise.antt =====
-- lib/eval/value.cpp: what the operators on bits and the shifts compute once both operands have the types that they
-- require: the lambdas handed to `apply_binary`.
use Prim.Native.Nat.{bit_and, bit_or, bit_xor}
use enlightenedc.Prelude.{ℕ, ◌*◌, ◌/◌, ◌%◌, ◌^◌, Bool, true, leb, Option, none, some}
use enlightenedc.Prelude.Int.{ℤ, pos, negsuc}
use enlightenedc.Token.Kinds.{PrimType}
use enlightenedc.Primitive
use enlightenedc.Outcome.{
  Outcome, ok, fail, eval_semantic_error, invalid_compile_time_eval, internal_error, throw_if,
  ◌>>=◌, ◌>>◌,
}
use enlightenedc.Float.{Floats}
use enlightenedc.Word.{to_bits, of_bits, shr_ℤ}
use enlightenedc.Value.{Value, primtype}
use enlightenedc.Value.Cast.{pr_cast}

-- A bit operation on two's complement.
unfoldable pub bitwise : (ℕ → ℕ → ℕ) → ℕ → ℤ → ℤ → ℤ
bitwise f m a b = of_bits m (f (to_bits m a) (to_bits m b))

module _ ⦃F : Floats⦄ where
  unfoldable pub compute_or : Value F → Value F → Outcome (Value F)
  unfolding bitwise
  compute_or (Value.i32 a) (Value.i32 b) = ok (Value.i32 (bitwise bit_or (2 ^ 32) a b))
  compute_or (Value.i64 a) (Value.i64 b) = ok (Value.i64 (bitwise bit_or (2 ^ 64) a b))
  compute_or (Value.u32 a) (Value.u32 b) = ok (Value.u32 (bit_or a b))
  compute_or (Value.u64 a) (Value.u64 b) = ok (Value.u64 (bit_or a b))
  compute_or _ _ = fail internal_error

  unfoldable pub compute_xor : Value F → Value F → Outcome (Value F)
  unfolding bitwise
  compute_xor (Value.i32 a) (Value.i32 b) = ok (Value.i32 (bitwise bit_xor (2 ^ 32) a b))
  compute_xor (Value.i64 a) (Value.i64 b) = ok (Value.i64 (bitwise bit_xor (2 ^ 64) a b))
  compute_xor (Value.u32 a) (Value.u32 b) = ok (Value.u32 (bit_xor a b))
  compute_xor (Value.u64 a) (Value.u64 b) = ok (Value.u64 (bit_xor a b))
  compute_xor _ _ = fail internal_error

  unfoldable pub compute_and : Value F → Value F → Outcome (Value F)
  unfolding bitwise
  compute_and (Value.i32 a) (Value.i32 b) = ok (Value.i32 (bitwise bit_and (2 ^ 32) a b))
  compute_and (Value.i64 a) (Value.i64 b) = ok (Value.i64 (bitwise bit_and (2 ^ 64) a b))
  compute_and (Value.u32 a) (Value.u32 b) = ok (Value.u32 (bit_and a b))
  compute_and (Value.u64 a) (Value.u64 b) = ok (Value.u64 (bit_and a b))
  compute_and _ _ = fail internal_error

  -- `r.cast<int64_t>()`, as a signed number.
  unfoldable pub shift_count : Value F → Outcome ℤ
  unfolding pr_cast
  shift_count r = do c ← pr_cast PrimType.i64 r; as_i64 c
    where
      as_i64 : Value F → Outcome ℤ
      as_i64 (Value.i64 c) = ok c
      as_i64 _ = fail internal_error

  unfoldable pub bit_width : Value F → ℕ
  unfolding primtype Primitive.pr_size_in_bits
  bit_width l = width (primtype l)
    where
      width : Option PrimType → ℕ
      width none = 0
      width (some pr) = Primitive.pr_size_in_bits pr

  -- Whether a count is negative or not below the width.
  unfoldable pub out_of_range : ℤ → ℕ → Bool
  out_of_range (pos c) w = leb w c
  out_of_range (negsuc c) w = true

  unfoldable pub shl : Value F → ℤ → Outcome (Value F)
  shl (Value.i32 a) (pos c) =
      ok (Value.i32 (of_bits (2 ^ 32) (to_bits (2 ^ 32) a * 2 ^ c % 2 ^ 32)))
  shl (Value.i64 a) (pos c) =
      ok (Value.i64 (of_bits (2 ^ 64) (to_bits (2 ^ 64) a * 2 ^ c % 2 ^ 64)))
  shl (Value.u32 a) (pos c) = ok (Value.u32 (a * 2 ^ c % 2 ^ 32))
  shl (Value.u64 a) (pos c) = ok (Value.u64 (a * 2 ^ c % 2 ^ 64))
  shl _ _ = fail internal_error

  unfoldable pub shr : Value F → ℤ → Outcome (Value F)
  shr (Value.i32 a) (pos c) = ok (Value.i32 (shr_ℤ a c))
  shr (Value.i64 a) (pos c) = ok (Value.i64 (shr_ℤ a c))
  shr (Value.u32 a) (pos c) = ok (Value.u32 (a / 2 ^ c))
  shr (Value.u64 a) (pos c) = ok (Value.u64 (a / 2 ^ c))
  shr _ _ = fail internal_error

  unfoldable pub compute_shl : Value F → Value F → Outcome (Value F)
  unfolding shift_count bit_width out_of_range shl
  compute_shl l r = do
    c ← shift_count r
    throw_if (out_of_range c (bit_width l)) invalid_compile_time_eval
    shl l c

  unfoldable pub compute_shr : Value F → Value F → Outcome (Value F)
  unfolding shift_count bit_width out_of_range shr
  compute_shr l r = do
    c ← shift_count r
    throw_if (out_of_range c (bit_width l)) eval_semantic_error
    shr l c
