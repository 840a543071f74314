-- ===== src/Value/Safety.antt =====
-- The evaluator's operators never reach an `ECC_UNREACHABLE`.
use enlightenedc.Prelude.{◌≡◌, Bool, true, false, arith}
use enlightenedc.Token.Kinds.{PrimType}
use enlightenedc.Primitive.{pr_is_integer}
use enlightenedc.Outcome.{Outcome, fail, internal_error, todo}
use enlightenedc.Float.{Floats}
use enlightenedc.Value.{Value}
use enlightenedc.Value.Bitwise.{compute_or, compute_xor, compute_and, compute_shl, compute_shr}
use enlightenedc.Value.Compare.{
  compute_eq, compute_ne, compute_lt, compute_gt, compute_le, compute_ge,
}
use enlightenedc.Value.Arith.{compute_mod, compute_add, compute_sub, compute_mul, compute_div}
use enlightenedc.Value.HasType.{HasType}

-- Whether a computation ends otherwise than in an unreachable branch (`ECC_UNREACHABLE`, a failed
-- assertion) or an unfinished one (`todo()`). Undefined behaviour is not ruled out.
abbrev pub sound {ℓ} : {A : Type ℓ} → Outcome A → Bool
sound (fail internal_error) = false
sound (fail todo) = false
sound _ = true

-- The types that a promoted integer, and a promoted number, can have.
abbrev pub wide_int : PrimType → Bool
wide_int PrimType.i32 = true
wide_int PrimType.i64 = true
wide_int PrimType.u32 = true
wide_int PrimType.u64 = true
wide_int _ = false

abbrev pub wide_num : PrimType → Bool
wide_num PrimType.f32 = true
wide_num PrimType.f64 = true
wide_num t = wide_int t

module _ ⦃F : Floats⦄ where
  pub sound-or :
      {t : PrimType} {l r : Value F}
      → HasType t l
      → HasType t r
      → wide_int t ≡ true
      → sound (compute_or l r) ≡ true
  unfolding compute_or
  sound-or (HasType.i8 a) b g = cc
  sound-or _ (HasType.i32 b) g = ground arith
  sound-or _ _ g = ground arith

  pub sound-xor :
      {t : PrimType} {l r : Value F}
      → HasType t l
      → HasType t r
      → wide_int t ≡ true
      → sound (compute_xor l r) ≡ true
  unfolding compute_xor
  sound-xor (HasType.i8 a) b g = cc
  sound-xor _ (HasType.i32 b) g = ground arith
  sound-xor _ _ g = ground arith

  pub sound-and :
      {t : PrimType} {l r : Value F}
      → HasType t l
      → HasType t r
      → wide_int t ≡ true
      → sound (compute_and l r) ≡ true
  unfolding compute_and
  sound-and (HasType.i8 a) b g = cc
  sound-and _ (HasType.i32 b) g = ground arith
  sound-and _ _ g = ground arith

  pub sound-mod :
      {t : PrimType} {l r : Value F}
      → HasType t l
      → HasType t r
      → wide_int t ≡ true
      → sound (compute_mod l r) ≡ true
  unfolding compute_mod
  sound-mod (HasType.i8 a) b g = cc
  sound-mod _ (HasType.i32 b) g = ground arith
  sound-mod _ _ g = ground arith

  pub sound-eq :
      {t : PrimType} {l r : Value F}
      → HasType t l
      → HasType t r
      → wide_num t ≡ true
      → sound (compute_eq l r) ≡ true
  unfolding compute_eq
  sound-eq (HasType.i8 a) b g = cc
  sound-eq _ (HasType.i32 b) g = ground arith
  sound-eq _ _ g = ground arith

  pub sound-ne :
      {t : PrimType} {l r : Value F}
      → HasType t l
      → HasType t r
      → wide_num t ≡ true
      → sound (compute_ne l r) ≡ true
  unfolding compute_ne
  sound-ne (HasType.i8 a) b g = cc
  sound-ne _ (HasType.i32 b) g = ground arith
  sound-ne _ _ g = ground arith

  pub sound-lt :
      {t : PrimType} {l r : Value F}
      → HasType t l
      → HasType t r
      → wide_num t ≡ true
      → sound (compute_lt l r) ≡ true
  unfolding compute_lt
  sound-lt (HasType.i8 a) b g = cc
  sound-lt _ (HasType.i32 b) g = ground arith
  sound-lt _ _ g = ground arith

  pub sound-gt :
      {t : PrimType} {l r : Value F}
      → HasType t l
      → HasType t r
      → wide_num t ≡ true
      → sound (compute_gt l r) ≡ true
  unfolding compute_gt
  sound-gt (HasType.i8 a) b g = cc
  sound-gt _ (HasType.i32 b) g = ground arith
  sound-gt _ _ g = ground arith

  pub sound-le :
      {t : PrimType} {l r : Value F}
      → HasType t l
      → HasType t r
      → wide_num t ≡ true
      → sound (compute_le l r) ≡ true
  unfolding compute_le
  sound-le (HasType.i8 a) b g = cc
  sound-le _ (HasType.i32 b) g = ground arith
  sound-le _ _ g = ground arith

  pub sound-ge :
      {t : PrimType} {l r : Value F}
      → HasType t l
      → HasType t r
      → wide_num t ≡ true
      → sound (compute_ge l r) ≡ true
  unfolding compute_ge
  sound-ge (HasType.i8 a) b g = cc
  sound-ge _ (HasType.i32 b) g = ground arith
  sound-ge _ _ g = ground arith

  pub sound-add :
      {t : PrimType} {l r : Value F}
      → HasType t l
      → HasType t r
      → wide_num t ≡ true
      → sound (compute_add l r) ≡ true
  unfolding compute_add
  sound-add (HasType.i8 a) b g = cc
  sound-add _ (HasType.i32 b) g = ground arith
  sound-add _ _ g = ground arith

  pub sound-sub :
      {t : PrimType} {l r : Value F}
      → HasType t l
      → HasType t r
      → wide_num t ≡ true
      → sound (compute_sub l r) ≡ true
  unfolding compute_sub
  sound-sub (HasType.i8 a) b g = cc
  sound-sub _ (HasType.i32 b) g = ground arith
  sound-sub _ _ g = ground arith

  pub sound-mul :
      {t : PrimType} {l r : Value F}
      → HasType t l
      → HasType t r
      → wide_num t ≡ true
      → sound (compute_mul l r) ≡ true
  unfolding compute_mul
  sound-mul (HasType.i8 a) b g = cc
  sound-mul _ (HasType.i32 b) g = ground arith
  sound-mul _ _ g = ground arith

  pub sound-div :
      {t : PrimType} {l r : Value F}
      → HasType t l
      → HasType t r
      → wide_num t ≡ true
      → sound (compute_div l r) ≡ true
  unfolding compute_div
  sound-div (HasType.i8 a) b g = cc
  sound-div _ (HasType.i32 b) g = ground arith
  sound-div _ _ g = ground arith

  pub sound-shl :
      {t u : PrimType} {l r : Value F}
      → HasType t l
      → HasType u r
      → wide_int t ≡ true
      → pr_is_integer u ≡ true
      → sound (compute_shl l r) ≡ true
  unfolding compute_shl pr_is_integer
  sound-shl (HasType.i8 a) b g k = cc
  sound-shl _ (HasType.i32 b) g k = ground arith
  sound-shl _ _ g k = ground arith

  pub sound-shr :
      {t u : PrimType} {l r : Value F}
      → HasType t l
      → HasType u r
      → wide_int t ≡ true
      → pr_is_integer u ≡ true
      → sound (compute_shr l r) ≡ true
  unfolding compute_shr pr_is_integer
  sound-shr (HasType.i8 a) b g k = cc
  sound-shr _ (HasType.i32 b) g k = ground arith
  sound-shr _ _ g k = ground arith
