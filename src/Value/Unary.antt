-- ===== src/Value/Unary.antt =====
-- lib/eval/value.cpp: the unary operators of `Value`. C++ promotes a narrow operand to `int` first, so
-- that their results on narrow integers and booleans are of type I32.
use enlightenedc.Prelude.{ℕ, ◌-◌, ◌%◌, ◌^◌, not, if◌then◌else◌}
use enlightenedc.Prelude.Int.{ℤ, pos, negsuc}
use enlightenedc.Outcome.{Outcome, ok, fail, eval_semantic_error, undefined_behaviour, ◌>>=◌}
use enlightenedc.Float.{Floats}
use enlightenedc.Word.{fits, neg_ℤ, minus_ℕ, flip}
use enlightenedc.Value.{Value, to_bool}

-- The negation of a signed number of modulus `m`, whose minimum has none.
unfoldable pub negated : ℕ → ℤ → Outcome ℤ
negated m z = if fits m (neg_ℤ z) then ok (neg_ℤ z) else fail undefined_behaviour

module _ ⦃F : Floats⦄ where
  unfoldable pub not_op : Value F → Outcome (Value F)
  unfolding to_bool
  not_op v = ok (Value.bool (not (to_bool v)))

  unfoldable pub tilde_op : Value F → Outcome (Value F)
  tilde_op (Value.i8 v) = ok (Value.i32 (flip v))
  tilde_op (Value.i16 v) = ok (Value.i32 (flip v))
  tilde_op (Value.i32 v) = ok (Value.i32 (flip v))
  tilde_op (Value.i64 v) = ok (Value.i64 (flip v))
  tilde_op (Value.u8 v) = ok (Value.i32 (flip (pos v)))
  tilde_op (Value.u16 v) = ok (Value.i32 (flip (pos v)))
  tilde_op (Value.u32 v) = ok (Value.u32 (2 ^ 32 - 1 - v))
  tilde_op (Value.u64 v) = ok (Value.u64 (2 ^ 64 - 1 - v))
  tilde_op (Value.bool v) = ok (Value.i32 (flip (if v then pos 1 else pos 0)))
  tilde_op _ = fail eval_semantic_error

  unfoldable pub neg_op : Value F → Outcome (Value F)
  unfolding negated
  neg_op (Value.i8 v) = ok (Value.i32 (neg_ℤ v))
  neg_op (Value.i16 v) = ok (Value.i32 (neg_ℤ v))
  neg_op (Value.i32 v) = do z ← negated (2 ^ 32) v; ok (Value.i32 z)
  neg_op (Value.i64 v) = do z ← negated (2 ^ 64) v; ok (Value.i64 z)
  neg_op (Value.u8 v) = ok (Value.i32 (minus_ℕ v))
  neg_op (Value.u16 v) = ok (Value.i32 (minus_ℕ v))
  neg_op (Value.u32 v) = ok (Value.u32 ((2 ^ 32 - v) % 2 ^ 32))
  neg_op (Value.u64 v) = ok (Value.u64 ((2 ^ 64 - v) % 2 ^ 64))
  neg_op (Value.f32 v) = ok (Value.f32 (F.float.neg v))
  neg_op (Value.f64 v) = ok (Value.f64 (F.double.neg v))
  neg_op (Value.bool v) = ok (Value.i32 (if v then negsuc 0 else pos 0))
  neg_op (Value.ptr v) = fail eval_semantic_error

  unfoldable pub pos_op : Value F → Outcome (Value F)
  pos_op (Value.i8 v) = ok (Value.i32 v)
  pos_op (Value.i16 v) = ok (Value.i32 v)
  pos_op (Value.i32 v) = ok (Value.i32 v)
  pos_op (Value.i64 v) = ok (Value.i64 v)
  pos_op (Value.u8 v) = ok (Value.i32 (pos v))
  pos_op (Value.u16 v) = ok (Value.i32 (pos v))
  pos_op (Value.u32 v) = ok (Value.u32 v)
  pos_op (Value.u64 v) = ok (Value.u64 v)
  pos_op (Value.f32 v) = ok (Value.f32 v)
  pos_op (Value.f64 v) = ok (Value.f64 v)
  pos_op (Value.bool v) = ok (Value.i32 (if v then pos 1 else pos 0))
  pos_op (Value.ptr v) = fail eval_semantic_error
