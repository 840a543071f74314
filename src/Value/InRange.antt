-- ===== src/Value/InRange.antt =====
-- The values that a C++ object of each type can hold, and that the evaluator stays within them.
use enlightenedc.Prelude.{◌^◌, ◌≡◌, Bool, true, arith, ltb}
use enlightenedc.Token.Kinds.{PrimType}
use enlightenedc.Outcome.{ok}
use enlightenedc.Float.{Floats}
use enlightenedc.Word.{fits}
use enlightenedc.Value.{Value}
use enlightenedc.Value.Cast.{pr_cast}
use enlightenedc.Value.HasType.{HasType}
use enlightenedc.Value.Unary.{neg_op, tilde_op, pos_op}

module _ ⦃F : Floats⦄ where
  abbrev pub in_range : Value F → Bool
  in_range (Value.i8 z) = fits (2 ^ 8) z
  in_range (Value.i16 z) = fits (2 ^ 16) z
  in_range (Value.i32 z) = fits (2 ^ 32) z
  in_range (Value.i64 z) = fits (2 ^ 64) z
  in_range (Value.u8 n) = ltb n (2 ^ 8)
  in_range (Value.u16 n) = ltb n (2 ^ 16)
  in_range (Value.u32 n) = ltb n (2 ^ 32)
  in_range (Value.u64 n) = ltb n (2 ^ 64)
  in_range (Value.ptr p) = ltb p.address (2 ^ 64)
  in_range _ = true

  -- A conversion to a primitive type yields a value that the type can hold.
  pub in_range-pr_cast :
      (t : PrimType) (v : Value F) {w : Value F} → pr_cast t v ≡ ok w → in_range w ≡ true
  unfolding pr_cast
  in_range-pr_cast PrimType.bool v h = ground arith
  in_range-pr_cast _ v h = ground arith

  -- A conversion changes nothing on a value that has the type asked for and is within what that type
  -- can hold.
  pub pr_cast_self :
      {t : PrimType} {v : Value F} → HasType t v → in_range v ≡ true → pr_cast t v ≡ ok v
  unfolding pr_cast
  pr_cast_self (HasType.i8 z) h = ground arith
  pr_cast_self _ h = ground arith

  -- Minus on a value within what its type can hold yields one within what the result's type can hold.
  pub in_range-neg_op :
      (v : Value F) {w : Value F} → in_range v ≡ true → neg_op v ≡ ok w → in_range w ≡ true
  unfolding neg_op
  in_range-neg_op (Value.i8 z) h k = ground arith
  in_range-neg_op _ h k = ground arith

  pub in_range-tilde_op :
      (v : Value F) {w : Value F} → in_range v ≡ true → tilde_op v ≡ ok w → in_range w ≡ true
  unfolding tilde_op
  in_range-tilde_op (Value.i8 z) h k = ground arith
  in_range-tilde_op _ h k = ground arith

  pub in_range-pos_op :
      (v : Value F) {w : Value F} → in_range v ≡ true → pos_op v ≡ ok w → in_range w ≡ true
  unfolding pos_op
  in_range-pos_op (Value.i8 z) h k = ground arith
  in_range-pos_op _ h k = ground arith
