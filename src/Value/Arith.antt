-- ===== src/Value/Arith.antt =====
-- lib/eval/value.cpp: what the arithmetic operators compute once both operands have the types that they
-- require: the lambdas handed to `apply_binary`. Overflow of a signed sum, difference or
-- product is undefined in C++; an unsigned one wraps.
use enlightenedc.Prelude.{ℕ, ◌+◌, ◌-◌, ◌*◌, ◌/◌, ◌%◌, ◌^◌, Bool, not, ◌&&◌, if◌then◌else◌}
use enlightenedc.Prelude.Int.{ℤ, negsuc, ◌+ℤ◌, ◌-ℤ◌, ◌*ℤ◌}
use enlightenedc.Outcome.{
  Outcome, ok, fail, eval_semantic_error, undefined_behaviour, internal_error, throw_if, ◌>>=◌,
  ◌>>◌,
}
use enlightenedc.Float.{Floats}
use enlightenedc.Word.{fits, eq_ℤ, div_ℤ, mod_ℤ}
use enlightenedc.Value.{Value, to_bool, is_integer}

-- The result of a signed operation of modulus `m`, if the type can hold it.
unfoldable pub checked : ℕ → ℤ → Outcome ℤ
checked m z = if fits m z then ok z else fail undefined_behaviour

-- `reject_intdiv_overflow`: the minimum divided by -1.
unfoldable pub overflows : ℕ → ℤ → ℤ → Bool
overflows m a b = eq_ℤ b (negsuc 0) && eq_ℤ a (negsuc (m / 2 - 1))

module _ ⦃F : Floats⦄ where
  unfoldable pub mod_typed : Value F → Value F → Outcome (Value F)
  unfolding overflows
  mod_typed (Value.i32 a) (Value.i32 b) = do
    throw_if (overflows (2 ^ 32) a b) eval_semantic_error
    ok (Value.i32 (mod_ℤ a b))
  mod_typed (Value.i64 a) (Value.i64 b) = do
    throw_if (overflows (2 ^ 64) a b) eval_semantic_error
    ok (Value.i64 (mod_ℤ a b))
  mod_typed (Value.u32 a) (Value.u32 b) = ok (Value.u32 (a % b))
  mod_typed (Value.u64 a) (Value.u64 b) = ok (Value.u64 (a % b))
  mod_typed _ _ = fail internal_error

  unfoldable pub compute_mod : Value F → Value F → Outcome (Value F)
  unfolding mod_typed to_bool
  compute_mod l r = do throw_if (not (to_bool r)) eval_semantic_error; mod_typed l r

  unfoldable pub compute_add : Value F → Value F → Outcome (Value F)
  unfolding checked ◌+ℤ◌
  compute_add (Value.i32 a) (Value.i32 b) = do c ← checked (2 ^ 32) (a +ℤ b); ok (Value.i32 c)
  compute_add (Value.i64 a) (Value.i64 b) = do c ← checked (2 ^ 64) (a +ℤ b); ok (Value.i64 c)
  compute_add (Value.u32 a) (Value.u32 b) = ok (Value.u32 ((a + b) % 2 ^ 32))
  compute_add (Value.u64 a) (Value.u64 b) = ok (Value.u64 ((a + b) % 2 ^ 64))
  compute_add (Value.f32 a) (Value.f32 b) = ok (Value.f32 (F.float.add a b))
  compute_add (Value.f64 a) (Value.f64 b) = ok (Value.f64 (F.double.add a b))
  compute_add _ _ = fail internal_error

  unfoldable pub compute_sub : Value F → Value F → Outcome (Value F)
  unfolding checked ◌-ℤ◌
  compute_sub (Value.i32 a) (Value.i32 b) = do c ← checked (2 ^ 32) (a -ℤ b); ok (Value.i32 c)
  compute_sub (Value.i64 a) (Value.i64 b) = do c ← checked (2 ^ 64) (a -ℤ b); ok (Value.i64 c)
  compute_sub (Value.u32 a) (Value.u32 b) = ok (Value.u32 ((a + 2 ^ 32 - b) % 2 ^ 32))
  compute_sub (Value.u64 a) (Value.u64 b) = ok (Value.u64 ((a + 2 ^ 64 - b) % 2 ^ 64))
  compute_sub (Value.f32 a) (Value.f32 b) = ok (Value.f32 (F.float.sub a b))
  compute_sub (Value.f64 a) (Value.f64 b) = ok (Value.f64 (F.double.sub a b))
  compute_sub _ _ = fail internal_error

  unfoldable pub compute_mul : Value F → Value F → Outcome (Value F)
  unfolding checked ◌*ℤ◌
  compute_mul (Value.i32 a) (Value.i32 b) = do c ← checked (2 ^ 32) (a *ℤ b); ok (Value.i32 c)
  compute_mul (Value.i64 a) (Value.i64 b) = do c ← checked (2 ^ 64) (a *ℤ b); ok (Value.i64 c)
  compute_mul (Value.u32 a) (Value.u32 b) = ok (Value.u32 (a * b % 2 ^ 32))
  compute_mul (Value.u64 a) (Value.u64 b) = ok (Value.u64 (a * b % 2 ^ 64))
  compute_mul (Value.f32 a) (Value.f32 b) = ok (Value.f32 (F.float.mul a b))
  compute_mul (Value.f64 a) (Value.f64 b) = ok (Value.f64 (F.double.mul a b))
  compute_mul _ _ = fail internal_error

  unfoldable pub div_typed : Value F → Value F → Outcome (Value F)
  unfolding overflows
  div_typed (Value.i32 a) (Value.i32 b) = do
    throw_if (overflows (2 ^ 32) a b) eval_semantic_error
    ok (Value.i32 (div_ℤ a b))
  div_typed (Value.i64 a) (Value.i64 b) = do
    throw_if (overflows (2 ^ 64) a b) eval_semantic_error
    ok (Value.i64 (div_ℤ a b))
  div_typed (Value.u32 a) (Value.u32 b) = ok (Value.u32 (a / b))
  div_typed (Value.u64 a) (Value.u64 b) = ok (Value.u64 (a / b))
  div_typed (Value.f32 a) (Value.f32 b) = ok (Value.f32 (F.float.div a b))
  div_typed (Value.f64 a) (Value.f64 b) = ok (Value.f64 (F.double.div a b))
  div_typed _ _ = fail internal_error

  unfoldable pub compute_div : Value F → Value F → Outcome (Value F)
  unfolding div_typed to_bool is_integer
  compute_div l r = do throw_if (is_integer r && not (to_bool r)) eval_semantic_error; div_typed l r
