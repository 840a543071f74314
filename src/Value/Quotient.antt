-- ===== src/Value/Quotient.antt =====
-- Integer division and remainder of the evaluator.
use enlightenedc.Value.Binary.{binary_op}
use enlightenedc.Outcome.{◌>>=◌}
use enlightenedc.Value.Cast.{pr_cast}
use enlightenedc.Primitive.{pr_check_binary_op}
use enlightenedc.Prelude.{
  ℕ, zero, suc, ◌/◌, ◌^◌, ◌<◌, ◌≡◌, refl, Bool, true, false, ◌||◌, not, some, arith, if◌then◌else◌,
}
use native.Mathlib.Nat.{div-le_self, div-lt_self, div-one, div-add-mod}
use enlightenedc.Value.Arith.{overflows}
use enlightenedc.Prelude.Int.{ℤ, pos, negsuc}
use enlightenedc.Token.Kinds.{PrimType, BinaryOp}
use enlightenedc.Outcome.{ok, fail, eval_semantic_error, Outcome}
use enlightenedc.Float.{Floats}
use enlightenedc.Word.{fits, to_bits, is_zero, div_ℤ, mod_ℤ}
use enlightenedc.Value.{Value}
use enlightenedc.Value.Arith.{compute_div, compute_mod}
use enlightenedc.Value.HasType.{HasType}
use enlightenedc.Value.InRange.{in_range}
use enlightenedc.Value.Exact.{int_of, at_one_type}
use enlightenedc.Value.Safety.{wide_int}

-- Among the numbers of a signed type the quotient leaves the type for the minimum divided by -1
-- alone.
overflows-fits :
    (m : ℕ) (a b : ℤ)
    → 0 < m / 2
    → fits m a ≡ true
    → fits m b ≡ true
    → is_zero b ≡ false
    → overflows m a b ≡ not (fits m (div_ℤ a b))
unfolding overflows
overflows-fits m (pos a) (pos b) h ha hb hz = ground (arith, div-le_self a b)
overflows-fits m (pos a) (negsuc b) h ha hb hz = ground (arith, div-le_self a (suc b))
overflows-fits m (negsuc a) (pos b) h ha hb hz = ground (arith, div-le_self (suc a) b)
overflows-fits m (negsuc a) (negsuc zero) h ha hb hz = ground (arith, div-one (suc a))
overflows-fits m (negsuc a) (negsuc (suc b)) h ha hb hz =
    ground (arith, div-lt_self {n = suc a} {k = suc (suc b)})

mod_ℤ-fits : (m : ℕ) (a b : ℤ) → fits m a ≡ true → fits m (mod_ℤ a b) ≡ true
mod_ℤ-fits m (pos a) (pos b) h = ground (arith, div-add-mod a b)
mod_ℤ-fits m (pos a) (negsuc b) h = ground (arith, div-add-mod a (suc b))
mod_ℤ-fits m (negsuc a) (pos b) h = ground (arith, div-add-mod (suc a) b)
mod_ℤ-fits m (negsuc a) (negsuc b) h = ground (arith, div-add-mod (suc a) (suc b))

abbrev pub is_quotient : BinaryOp → Bool
is_quotient BinaryOp.div = true
is_quotient BinaryOp.modulo = true
is_quotient _ = false

-- The integer operation behind a division or remainder.
abbrev pub quotient_op : BinaryOp → ℤ → ℤ → ℤ
quotient_op BinaryOp.modulo a b = mod_ℤ a b
quotient_op _ a b = div_ℤ a b

module _ ⦃F : Floats⦄ where
  -- The value of a wide integer type for an integer that the type can hold.
  abbrev pub make : PrimType → ℤ → Value F
  make PrimType.i32 z = Value.i32 z
  make PrimType.i64 z = Value.i64 z
  make PrimType.u32 z = Value.u32 (to_bits (2 ^ 32) z)
  make _ z = Value.u64 (to_bits (2 ^ 64) z)

  -- Whether `l / r` has no value: `r` is 0, or the quotient exceeds the signed type.
  abbrev pub no_quotient : PrimType → ℤ → ℤ → Bool
  no_quotient PrimType.i32 a b = is_zero b || not (fits (2 ^ 32) (div_ℤ a b))
  no_quotient PrimType.i64 a b = is_zero b || not (fits (2 ^ 64) (div_ℤ a b))
  no_quotient _ a b = is_zero b

  compute_div-int :
      {t : PrimType} {l r : Value F}
      → HasType t l
      → HasType t r
      → in_range l ≡ true
      → in_range r ≡ true
      → wide_int t ≡ true
      → compute_div l r ≡ (
          if no_quotient t (int_of l) (int_of r)
          then fail eval_semantic_error
          else ok (make t (div_ℤ (int_of l) (int_of r))))
  unfolding compute_div
  compute_div-int (HasType.i8 a) b hl hr w = cc
  compute_div-int (HasType.i32 a) (HasType.i32 b) hl hr w =
      ground (arith, overflows-fits (2 ^ 32) a b (omega arith) hl hr)
  compute_div-int (HasType.i64 a) (HasType.i64 b) hl hr w =
      ground (arith, overflows-fits (2 ^ 64) a b (omega arith) hl hr)
  compute_div-int (HasType.u32 a) (HasType.u32 b) hl hr w = ground (arith, div-le_self a b)
  compute_div-int (HasType.u64 a) (HasType.u64 b) hl hr w = ground (arith, div-le_self a b)
  compute_div-int _ _ hl hr w = cc

  compute_mod-int :
      {t : PrimType} {l r : Value F}
      → HasType t l
      → HasType t r
      → in_range l ≡ true
      → in_range r ≡ true
      → wide_int t ≡ true
      → compute_mod l r ≡ (
          if no_quotient t (int_of l) (int_of r)
          then fail eval_semantic_error
          else ok (make t (mod_ℤ (int_of l) (int_of r))))
  unfolding compute_mod
  compute_mod-int (HasType.i8 a) b hl hr w = cc
  compute_mod-int (HasType.i32 a) (HasType.i32 b) hl hr w =
      ground (arith, overflows-fits (2 ^ 32) a b (omega arith) hl hr)
  compute_mod-int (HasType.i64 a) (HasType.i64 b) hl hr w =
      ground (arith, overflows-fits (2 ^ 64) a b (omega arith) hl hr)
  compute_mod-int (HasType.u32 a) (HasType.u32 b) hl hr w = ground (arith, div-add-mod a b)
  compute_mod-int (HasType.u64 a) (HasType.u64 b) hl hr w = ground (arith, div-add-mod a b)
  compute_mod-int _ _ hl hr w = cc

  quotient_types :
      (op : BinaryOp) (t : PrimType)
      → is_quotient op ≡ true
      → wide_int t ≡ true
      → pr_check_binary_op op t t ≡ some (record { lhs_type = t; rhs_type = t; expr_type = t })
  unfolding pr_check_binary_op
  quotient_types BinaryOp.div PrimType.i32 h w = refl
  quotient_types BinaryOp.div _ h w = ground arith
  quotient_types BinaryOp.modulo PrimType.i32 h w = refl
  quotient_types BinaryOp.modulo _ h w = ground arith
  quotient_types _ t h w = cc

  -- The result of a division or remainder on the integers behind two values.
  abbrev pub quotient_result : BinaryOp → PrimType → ℤ → ℤ → Outcome (Value F)
  quotient_result op t a b =
      if no_quotient t a b then fail eval_semantic_error else ok (make t (quotient_op op a b))

  pr_cast-div :
      {t : PrimType} {l r : Value F}
      → HasType t l
      → HasType t r
      → wide_int t ≡ true
      → (quotient_result BinaryOp.div t (int_of l) (int_of r) >>= pr_cast t)
        ≡ quotient_result BinaryOp.div t (int_of l) (int_of r)
  unfolding pr_cast
  pr_cast-div (HasType.i8 a) b w = cc
  pr_cast-div (HasType.i32 a) (HasType.i32 b) w = ground arith
  pr_cast-div (HasType.i64 a) (HasType.i64 b) w = ground arith
  pr_cast-div (HasType.u32 a) (HasType.u32 b) w = ground arith
  pr_cast-div (HasType.u64 a) (HasType.u64 b) w = ground arith
  pr_cast-div _ _ w = cc

  pr_cast-mod :
      {t : PrimType} {l r : Value F}
      → HasType t l
      → HasType t r
      → in_range l ≡ true
      → wide_int t ≡ true
      → (quotient_result BinaryOp.modulo t (int_of l) (int_of r) >>= pr_cast t)
        ≡ quotient_result BinaryOp.modulo t (int_of l) (int_of r)
  unfolding pr_cast
  pr_cast-mod (HasType.i8 a) b h w = cc
  pr_cast-mod (HasType.i32 a) (HasType.i32 b) h w = ground (arith, mod_ℤ-fits (2 ^ 32) a b h)
  pr_cast-mod (HasType.i64 a) (HasType.i64 b) h w = ground (arith, mod_ℤ-fits (2 ^ 64) a b h)
  pr_cast-mod (HasType.u32 a) (HasType.u32 b) h w = ground arith
  pr_cast-mod (HasType.u64 a) (HasType.u64 b) h w = ground arith
  pr_cast-mod _ _ h w = cc

  -- Division and remainder of two values of one integer type of 4 or 8 bytes are those of the
  -- integers, towards zero, and an error exactly if the divisor is 0 or the quotient exceeds a
  -- signed type.
  pub binary_op-quotient :
      (op : BinaryOp) {t : PrimType} {l r : Value F}
      → is_quotient op ≡ true
      → wide_int t ≡ true
      → HasType t l
      → HasType t r
      → in_range l ≡ true
      → in_range r ≡ true
      → binary_op op l r ≡ quotient_result op t (int_of l) (int_of r)
  unfolding binary_op
  binary_op-quotient BinaryOp.div {t} k w hl hr rl rr =
      at_one_type BinaryOp.div compute_div _ (quotient_types BinaryOp.div t refl w) hl hr rl rr
        (pr_cast-div hl hr w) (compute_div-int hl hr rl rr w)
  binary_op-quotient BinaryOp.modulo {t} k w hl hr rl rr =
      at_one_type BinaryOp.modulo compute_mod _ (quotient_types BinaryOp.modulo t refl w) hl hr rl
        rr (pr_cast-mod hl hr rl w) (compute_mod-int hl hr rl rr w)
  binary_op-quotient _ k w hl hr rl rr = cc
