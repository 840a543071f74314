-- ===== src/Value/Complement.antt =====
-- The complement of a comparison, on the values that it compares.
use enlightenedc.Prelude.{
  ◌≡◌, refl, Bool, true, false, not, ◌||◌, ◌&&◌, Option, none, some, arith, inl, inr, Bool-cases,
}
use enlightenedc.Token.Kinds.{PrimType, BinaryOp, RelationalOp}
use enlightenedc.Token.Predicate.{relcomp}
use enlightenedc.Primitive.{PrimExprTypes, pr_check_binary_op, pr_is_float}
use enlightenedc.Primitive.Enumerate.{pr_eq, pr_eq_sound, all_types, holds_on_types}
use enlightenedc.Outcome.{Outcome, ok, fail, ◌>>=◌}
use enlightenedc.Float.{Floats}
use enlightenedc.Value.{Value, prim_test, primtype, is_pointer, is_float, to_bool}
use enlightenedc.Value.Cast.{pr_cast}
use enlightenedc.Value.Compare.{
  compute_eq, compute_ne, compute_lt, compute_gt, compute_le, compute_ge,
}
use enlightenedc.Value.Binary.{
  coerced, apply_typed, apply_binary, binary_op, relational, apply_binary_ptr,
}
use enlightenedc.Value.Unary.{not_op}
use enlightenedc.Value.HasType.{HasType, HasType-primtype, primtype-pr_cast}
use enlightenedc.Value.Safety.{wide_int}

-- `widen<BinaryOp>` of a comparison.
unfoldable pub widen : RelationalOp → BinaryOp
widen RelationalOp.eq = BinaryOp.eq
widen RelationalOp.ne = BinaryOp.ne
widen RelationalOp.lt = BinaryOp.lt
widen RelationalOp.gt = BinaryOp.gt
widen RelationalOp.le = BinaryOp.le
widen RelationalOp.ge = BinaryOp.ge

module _ ⦃F : Floats⦄ where
  compare_op : RelationalOp → Value F → Value F → Outcome (Value F)
  compare_op RelationalOp.eq = compute_eq
  compare_op RelationalOp.ne = compute_ne
  compare_op RelationalOp.lt = compute_lt
  compare_op RelationalOp.gt = compute_gt
  compare_op RelationalOp.le = compute_le
  compare_op RelationalOp.ge = compute_ge

  -- What a comparison answers.
  answer : Outcome (Value F) → Bool
  unfolding to_bool
  answer (ok v) = to_bool v
  answer (fail e) = false

  compare_op-answer :
      (op : RelationalOp) {t : PrimType} {l r : Value F}
      → HasType t l
      → HasType t r
      → wide_int t ≡ true
      → (compare_op op l r ≡ ok (Value.bool (answer (compare_op op l r))))
        × (compare_op (relcomp op) l r ≡ ok (Value.bool (not (answer (compare_op op l r)))))
  unfolding compare_op relcomp answer compute_eq compute_ne compute_lt compute_gt compute_le
      compute_ge
  compare_op-answer RelationalOp.eq (HasType.i8 a) b g = cc
  compare_op-answer _ (HasType.i8 a) b g = cc
  compare_op-answer _ _ (HasType.i32 b) g = ground arith
  compare_op-answer _ _ b g = ground arith

-- The operand types of a comparison of values that are not floating.
abbrev comparable : Option PrimExprTypes → Bool
comparable none = false
comparable (some t) =
    wide_int t.lhs_type && pr_eq t.lhs_type t.rhs_type && pr_eq t.expr_type PrimType.bool

comparable_table :
    (op : RelationalOp)
    → all_types (λ a.
      all_types
        λ b. pr_is_float a || pr_is_float b || comparable (pr_check_binary_op (widen op) a b))
      ≡ true
unfolding pr_check_binary_op all_types pr_eq pr_is_float widen
comparable_table RelationalOp.eq = refl
comparable_table _ = refl

check-relcomp :
    (op : RelationalOp) (a b : PrimType)
    → pr_check_binary_op (widen (relcomp op)) a b ≡ pr_check_binary_op (widen op) a b
unfolding widen relcomp pr_check_binary_op
check-relcomp RelationalOp.eq a b = refl
check-relcomp _ a b = refl

module _ ⦃F : Floats⦄ where
  -- The negation of a result, an error being passed on.
  abbrev negated : Outcome (Value F) → Outcome (Value F)
  negated o = o >>= not_op

  >>=-negated {ℓ} :
      {A : Type ℓ} (m : Outcome A) (f g : A → Outcome (Value F))
      → ((a : A) → m ≡ ok a → g a ≡ negated (f a))
      → (m >>= g) ≡ negated (m >>= f)
  >>=-negated (ok a) f g k = k a refl
  >>=-negated (fail e) f g k = refl

  compared-relcomp :
      (op : RelationalOp) {t : PrimType} {l r : Value F}
      → HasType t l
      → HasType t r
      → wide_int t ≡ true
      → (compare_op (relcomp op) l r >>= pr_cast PrimType.bool)
        ≡ negated (compare_op op l r >>= pr_cast PrimType.bool)
  unfolding pr_cast not_op answer
  compared-relcomp op {l = l} {r = r} hl hr g =
      let (e, e') = compare_op-answer op hl hr g in rw (e', e)

  coerced-relcomp :
      (op : RelationalOp) (l r : Value F) (o : Option PrimExprTypes)
      → comparable o ≡ true
      → coerced (compare_op (relcomp op)) l r o ≡ negated (coerced (compare_op op) l r o)
  unfolding coerced
  coerced-relcomp op l r none h = cc
  coerced-relcomp op l r (some t) h =
      rw (← same, is_bool)
        (>>=-negated (pr_cast t.lhs_type l) _ _ λ lop hl.
          >>=-negated (pr_cast t.lhs_type r) _ _ λ rop hr.
            compared-relcomp op (HasType-primtype lop (primtype-pr_cast t.lhs_type l hl))
              (HasType-primtype rop (primtype-pr_cast t.lhs_type r hr)) (ground arith))
    where
      same : t.lhs_type ≡ t.rhs_type
      same = pr_eq_sound t.lhs_type t.rhs_type (ground arith)

      is_bool : t.expr_type ≡ PrimType.bool
      is_bool = pr_eq_sound t.expr_type PrimType.bool (ground arith)

  comparable-check :
      (op : RelationalOp) (a b : PrimType)
      → pr_is_float a ≡ false
      → pr_is_float b ≡ false
      → comparable (pr_check_binary_op (widen op) a b) ≡ true
  comparable-check op a b ha hb = ground (
    arith,
    holds_on_types
        (λ a b. pr_is_float a || pr_is_float b || comparable (pr_check_binary_op (widen op) a b))
        (comparable_table op) a b,
  )

  typed-relcomp :
      (op : RelationalOp) (l r : Value F) (a b : Option PrimType)
      → prim_test pr_is_float a ≡ false
      → prim_test pr_is_float b ≡ false
      → apply_typed (widen (relcomp op)) (compare_op (relcomp op)) l r a b
        ≡ negated (apply_typed (widen op) (compare_op op) l r a b)
  unfolding apply_typed prim_test
  typed-relcomp op l r none b ha hb = refl
  typed-relcomp op l r (some a) none ha hb = refl
  typed-relcomp op l r (some a) (some b) ha hb =
      rw (check-relcomp op a b) (coerced-relcomp op l r _ (comparable-check op a b ha hb))

  ptr-relcomp :
      (op : RelationalOp) (l r : Value F)
      → apply_binary_ptr (widen (relcomp op)) l r ≡ negated (apply_binary_ptr (widen op) l r)
  unfolding apply_binary_ptr widen relcomp not_op
  ptr-relcomp RelationalOp.eq l r = ground arith
  ptr-relcomp _ l r = ground arith

  relational-relcomp :
      (op : RelationalOp) (l r : Value F)
      → is_float l ≡ false
      → is_float r ≡ false
      → relational (widen (relcomp op)) (compare_op (relcomp op)) l r
        ≡ negated (relational (widen op) (compare_op op) l r)
  unfolding relational apply_binary is_float
  relational-relcomp op l r hl hr = elim (Bool-cases (is_pointer l || is_pointer r)) [
    | inl e ↦ rw e (ptr-relcomp op l r)
    | inr e ↦ rw e (typed-relcomp op l r (primtype l) (primtype r) hl hr)
  ]

  binary_op-widen :
      (op : RelationalOp) (l r : Value F)
      → binary_op (widen op) l r ≡ relational (widen op) (compare_op op) l r
  unfolding binary_op widen compare_op
  binary_op-widen RelationalOp.eq l r = refl
  binary_op-widen _ l r = refl

  -- On integers, booleans and pointers a comparison and its complement give opposite answers, and one
  -- fails exactly as the other does.
  pub binary_op-relcomp :
      (op : RelationalOp) (l r : Value F)
      → is_float l ≡ false
      → is_float r ≡ false
      → binary_op (widen (relcomp op)) l r ≡ (binary_op (widen op) l r >>= not_op)
  binary_op-relcomp op l r hl hr =
      rw (binary_op-widen (relcomp op) l r, binary_op-widen op l r)
        (relational-relcomp op l r hl hr)
