-- ===== src/Value/HasType.antt =====
-- The type of a value as a relation, and what a conversion and a coerced binary operator yield.
use enlightenedc.Prelude.{ℕ, ◌≡◌, refl, subst, sym, ◌∙◌, Bool, Option, none, some, some_eq, arith}
use enlightenedc.Prelude.Int.{ℤ}
use enlightenedc.Token.Kinds.{PrimType, BinaryOp}
use enlightenedc.Primitive.{PrimExprTypes, pr_check_binary_op}
use enlightenedc.Outcome.{Outcome, ok, >>=-eq-ok}
use enlightenedc.Float.{Floats}
use enlightenedc.Value.{Value, primtype}
use enlightenedc.Value.Cast.{pr_cast}
use enlightenedc.Value.Binary.{coerced, apply_typed, apply_binary}

pub data HasType ⦃F : Floats⦄ : PrimType → Value F → Type 0 where
  i8 : (z : ℤ) → HasType PrimType.i8 (Value.i8 z)
  i16 : (z : ℤ) → HasType PrimType.i16 (Value.i16 z)
  i32 : (z : ℤ) → HasType PrimType.i32 (Value.i32 z)
  i64 : (z : ℤ) → HasType PrimType.i64 (Value.i64 z)
  u8 : (n : ℕ) → HasType PrimType.u8 (Value.u8 n)
  u16 : (n : ℕ) → HasType PrimType.u16 (Value.u16 n)
  u32 : (n : ℕ) → HasType PrimType.u32 (Value.u32 n)
  u64 : (n : ℕ) → HasType PrimType.u64 (Value.u64 n)
  f32 : (x : F.Float) → HasType PrimType.f32 (Value.f32 x)
  f64 : (x : F.Double) → HasType PrimType.f64 (Value.f64 x)
  bool : (b : Bool) → HasType PrimType.bool (Value.bool b)

module _ ⦃F : Floats⦄ where
  pub primtype-HasType : {t : PrimType} {v : Value F} → HasType t v → primtype v ≡ some t
  unfolding primtype
  primtype-HasType (HasType.i8 z) = refl
  primtype-HasType _ = refl

  -- The type that a primitive type of a value stands for.
  pub HasType-primtype : {t : PrimType} (v : Value F) → primtype v ≡ some t → HasType t v
  unfolding primtype
  HasType-primtype (Value.i8 z) h = subst (λ t. HasType t (Value.i8 z)) (some_eq h) (HasType.i8 z)
  HasType-primtype (Value.i16 z) h =
      subst (λ t. HasType t (Value.i16 z)) (some_eq h) (HasType.i16 z)
  HasType-primtype (Value.i32 z) h =
      subst (λ t. HasType t (Value.i32 z)) (some_eq h) (HasType.i32 z)
  HasType-primtype (Value.i64 z) h =
      subst (λ t. HasType t (Value.i64 z)) (some_eq h) (HasType.i64 z)
  HasType-primtype (Value.u8 n) h = subst (λ t. HasType t (Value.u8 n)) (some_eq h) (HasType.u8 n)
  HasType-primtype (Value.u16 n) h =
      subst (λ t. HasType t (Value.u16 n)) (some_eq h) (HasType.u16 n)
  HasType-primtype (Value.u32 n) h =
      subst (λ t. HasType t (Value.u32 n)) (some_eq h) (HasType.u32 n)
  HasType-primtype (Value.u64 n) h =
      subst (λ t. HasType t (Value.u64 n)) (some_eq h) (HasType.u64 n)
  HasType-primtype (Value.f32 x) h =
      subst (λ t. HasType t (Value.f32 x)) (some_eq h) (HasType.f32 x)
  HasType-primtype (Value.f64 x) h =
      subst (λ t. HasType t (Value.f64 x)) (some_eq h) (HasType.f64 x)
  HasType-primtype (Value.bool b) h =
      subst (λ t. HasType t (Value.bool b)) (some_eq h) (HasType.bool b)
  HasType-primtype (Value.ptr p) h = cc

  -- A conversion yields a value of the type that it names.
  pub primtype-pr_cast :
      (t : PrimType) (v : Value F) {w : Value F} → pr_cast t v ≡ ok w → primtype w ≡ some t
  unfolding pr_cast primtype
  primtype-pr_cast PrimType.bool v h = ground arith
  primtype-pr_cast _ v h = ground arith

  -- So the result of a coerced operator has the type that the algebra of types gives it.
  primtype-coerced :
      (compute : Value F → Value F → Outcome (Value F)) (l r : Value F) (types : PrimExprTypes)
      {v : Value F}
      → coerced compute l r (some types) ≡ ok v
      → primtype v ≡ some types.expr_type
  unfolding coerced
  primtype-coerced compute l r types h =
      let (lop, hl, h₁) = >>=-eq-ok (pr_cast types.lhs_type l) _ h in
      let (rop, hr, h₂) = >>=-eq-ok (pr_cast types.rhs_type r) _ h₁ in
      let (v, hv, h₃) = >>=-eq-ok (compute lop rop) _ h₂ in primtype-pr_cast types.expr_type v h₃

  coerced-eq-ok :
      (compute : Value F → Value F → Outcome (Value F)) (l r : Value F) (o : Option PrimExprTypes)
      {v : Value F}
      → coerced compute l r o ≡ ok v
      → (types : PrimExprTypes) × (o ≡ some types) × (primtype v ≡ some types.expr_type)
  unfolding coerced
  coerced-eq-ok compute l r none h = cc
  coerced-eq-ok compute l r (some types) h = (types, refl, primtype-coerced compute l r types h)

  -- `apply_binary` on values of primitive type.
  pub apply_binary-primtype :
      (op : BinaryOp) (compute : Value F → Value F → Outcome (Value F)) (l r : Value F)
      {a b : PrimType}
      → primtype l ≡ some a
      → primtype r ≡ some b
      → apply_binary op compute l r ≡ coerced compute l r (pr_check_binary_op op a b)
  unfolding apply_binary
  apply_binary-primtype op compute l r ha hb = rw (ha, hb, apply_typed)

  pub primtype-apply_binary :
      (op : BinaryOp) (compute : Value F → Value F → Outcome (Value F)) (l r : Value F)
      {a b : PrimType} {v : Value F}
      → primtype l ≡ some a
      → primtype r ≡ some b
      → apply_binary op compute l r ≡ ok v
      → (types : PrimExprTypes) × (pr_check_binary_op op a b ≡ some types)
        × (primtype v ≡ some types.expr_type)
  primtype-apply_binary op compute l r {a} {b} ha hb h =
      coerced-eq-ok compute l r (pr_check_binary_op op a b)
        (sym (apply_binary-primtype op compute l r ha hb) ∙ h)
