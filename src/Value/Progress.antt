-- ===== src/Value/Progress.antt =====
-- The evaluator's operators never reach an `ECC_UNREACHABLE` or a `todo()`: promotion leaves only the
-- operand types that their computations expect.
use enlightenedc.Prelude.{
  ◌≡◌, refl, sym, subst, Bool, true, false, ◌||◌, ◌&&◌, Option, none, some, arith, if◌then◌else◌,
  inl, inr, Bool-cases,
}
use enlightenedc.Token.Kinds.{PrimType, BinaryOp}
use enlightenedc.Primitive.{PrimExprTypes, pr_check_binary_op, pr_is_integer}
use enlightenedc.Primitive.Enumerate.{pr_eq, pr_eq_sound, all_types, holds_on_types}
use enlightenedc.Primitive.Checking.{is_shift, takes_integers}
use enlightenedc.Outcome.{Outcome, ok, fail, ◌>>=◌}
use enlightenedc.Float.{Floats}
use enlightenedc.Value.{Value, primtype, is_pointer}
use enlightenedc.Value.Cast.{pr_cast}
use enlightenedc.Value.Bitwise.{compute_or, compute_xor, compute_and, compute_shl, compute_shr}
use enlightenedc.Value.Arith.{compute_mod, compute_add, compute_sub, compute_mul, compute_div}
use enlightenedc.Value.Compare.{
  compute_eq, compute_ne, compute_lt, compute_gt, compute_le, compute_ge,
}
use enlightenedc.Value.Binary.{
  coerced, apply_typed, apply_binary, binary_op, relational, apply_binary_ptr,
}
use enlightenedc.Value.HasType.{HasType, HasType-primtype, primtype-pr_cast}
use enlightenedc.Value.Safety.{
  sound, wide_int, wide_num, sound-or, sound-xor, sound-and, sound-mod, sound-shl, sound-shr,
  sound-eq, sound-ne, sound-lt, sound-gt, sound-le, sound-ge, sound-add, sound-sub, sound-mul,
  sound-div,
}

-- Whether the operand types that `pr_check_binary_op` asks for are ones that `op` computes on.
abbrev operands_ok : BinaryOp → Option PrimExprTypes → Bool
operands_ok op none = true
operands_ok op (some t) =
    if is_shift op
    then wide_int t.lhs_type && pr_is_integer t.rhs_type
    else (if takes_integers op then wide_int t.lhs_type else wide_num t.lhs_type)
      && pr_eq t.lhs_type t.rhs_type

operands_ok_table :
    (op : BinaryOp)
    → all_types (λ a. all_types λ b. operands_ok op (pr_check_binary_op op a b)) ≡ true
unfolding pr_check_binary_op all_types pr_eq pr_is_integer
operands_ok_table BinaryOp.oror = refl
operands_ok_table _ = refl

operands_ok-check :
    (op : BinaryOp) (a b : PrimType) → operands_ok op (pr_check_binary_op op a b) ≡ true
operands_ok-check op = holds_on_types _ (operands_ok_table op)

pub sound->>= {ℓ κ} :
    {A : Type ℓ} {B : Type κ} (m : Outcome A) (f : A → Outcome B)
    → sound m ≡ true
    → ((a : A) → m ≡ ok a → sound (f a) ≡ true)
    → sound (m >>= f) ≡ true
sound->>= (ok a) f h k = k a refl
sound->>= (fail e) f h k = ground arith

-- Pointers are compared by the six comparisons only.
is_comparison : BinaryOp → Bool
is_comparison BinaryOp.eq = true
is_comparison BinaryOp.ne = true
is_comparison BinaryOp.lt = true
is_comparison BinaryOp.gt = true
is_comparison BinaryOp.le = true
is_comparison BinaryOp.ge = true
is_comparison _ = false

module _ ⦃F : Floats⦄ where
  pub sound-pr_cast : (t : PrimType) (v : Value F) → sound (pr_cast t v) ≡ true
  unfolding pr_cast
  sound-pr_cast PrimType.bool v = refl
  sound-pr_cast _ v = ground arith

  -- A computation that is sound on operands of the types asked for.
  abbrev SoundAt : (Value F → Value F → Outcome (Value F)) → PrimType → PrimType → Type 0
  SoundAt compute t u =
      (lop rop : Value F) → HasType t lop → HasType u rop → sound (compute lop rop) ≡ true

  sound-coerced :
      (compute : Value F → Value F → Outcome (Value F)) (l r : Value F) (t : PrimExprTypes)
      → SoundAt compute t.lhs_type t.rhs_type
      → sound (coerced compute l r (some t)) ≡ true
  unfolding coerced
  sound-coerced compute l r t h =
      sound->>= (pr_cast t.lhs_type l) _ (sound-pr_cast t.lhs_type l) λ lop hl.
        sound->>= (pr_cast t.rhs_type r) _ (sound-pr_cast t.rhs_type r) λ rop hr.
          sound->>= (compute lop rop) _
            (h lop rop (HasType-primtype lop (primtype-pr_cast t.lhs_type l hl))
              (HasType-primtype rop (primtype-pr_cast t.rhs_type r hr)))
            λ v _. sound-pr_cast t.expr_type v

  -- Behind the check of the types.
  sound-checked :
      (op : BinaryOp) (compute : Value F → Value F → Outcome (Value F))
      → ((t : PrimExprTypes)
          → operands_ok op (some t) ≡ true
          → SoundAt compute t.lhs_type t.rhs_type)
      → (l r : Value F) (o : Option PrimExprTypes) → operands_ok op o ≡ true
      → sound (coerced compute l r o) ≡ true
  sound-checked op compute h l r none k = unfold coerced in refl
  sound-checked op compute h l r (some t) k = sound-coerced compute l r t (h t k)

  sound-typed :
      (op : BinaryOp) (compute : Value F → Value F → Outcome (Value F))
      → ((t : PrimExprTypes)
          → operands_ok op (some t) ≡ true
          → SoundAt compute t.lhs_type t.rhs_type)
      → (l r : Value F) (a b : Option PrimType) → sound (apply_typed op compute l r a b) ≡ true
  unfolding apply_typed
  sound-typed op compute h l r none b = refl
  sound-typed op compute h l r (some a) none = refl
  sound-typed op compute h l r (some a) (some b) =
      sound-checked op compute h l r (pr_check_binary_op op a b) (operands_ok-check op a b)

  -- The operand types of an operator that wants two of one type.
  of_one_type :
      (good : PrimType → Bool) (compute : Value F → Value F → Outcome (Value F))
      → ((t : PrimType) → good t ≡ true → SoundAt compute t t)
      → (t : PrimExprTypes) → (good t.lhs_type && pr_eq t.lhs_type t.rhs_type) ≡ true
      → SoundAt compute t.lhs_type t.rhs_type
  of_one_type good compute h t k lop rop hl hr =
      h t.lhs_type (ground arith) lop rop hl
        (subst (λ u. HasType u rop) (sym (pr_eq_sound t.lhs_type t.rhs_type (ground arith))) hr)

  sound-shift :
      (compute : Value F → Value F → Outcome (Value F))
      → ((t u : PrimType) → wide_int t ≡ true → pr_is_integer u ≡ true → SoundAt compute t u)
      → (t : PrimExprTypes) → (wide_int t.lhs_type && pr_is_integer t.rhs_type) ≡ true
      → SoundAt compute t.lhs_type t.rhs_type
  sound-shift compute h t k = h t.lhs_type t.rhs_type (ground arith) (ground arith)

  sound-relational :
      (op : BinaryOp) (compute : Value F → Value F → Outcome (Value F))
      → ((a b : Value F) → sound (apply_binary_ptr op a b) ≡ true)
      → ((a b : Value F) → sound (apply_binary op compute a b) ≡ true)
      → (l r : Value F) → sound (relational op compute l r) ≡ true
  unfolding relational
  sound-relational op compute h k l r = elim (Bool-cases (is_pointer l || is_pointer r)) [
    | inl e ↦ rw e (h l r)
    | inr e ↦ rw e (k l r)
  ]

  sound-apply :
      (op : BinaryOp) (compute : Value F → Value F → Outcome (Value F))
      → ((t : PrimExprTypes)
          → operands_ok op (some t) ≡ true
          → SoundAt compute t.lhs_type t.rhs_type)
      → (l r : Value F) → sound (apply_binary op compute l r) ≡ true
  unfolding apply_binary
  sound-apply op compute h l r = sound-typed op compute h l r (primtype l) (primtype r)

  sound-apply_binary_ptr :
      (op : BinaryOp) (l r : Value F)
      → is_comparison op ≡ true
      → sound (apply_binary_ptr op l r) ≡ true
  unfolding is_comparison apply_binary_ptr
  sound-apply_binary_ptr BinaryOp.eq l r h = ground arith
  sound-apply_binary_ptr _ l r h = ground arith

  compared :
      (op : BinaryOp) (compute : Value F → Value F → Outcome (Value F))
      → is_comparison op ≡ true
      → ((t : PrimExprTypes)
          → operands_ok op (some t) ≡ true
          → SoundAt compute t.lhs_type t.rhs_type)
      → (l r : Value F) → sound (relational op compute l r) ≡ true
  compared op compute c h =
      sound-relational op compute (λ a b. sound-apply_binary_ptr op a b c)
        (sound-apply op compute h)

  -- An operator never ends in an unreachable branch of the evaluator or in an unfinished one, on any
  -- two values: no operand types get past `pr_check_binary_op` that its computation does not handle,
  -- and every comparison of pointers is written. Signed overflow of the evaluator's own arithmetic,
  -- which is undefined behaviour, is not ruled out.
  pub sound-binary_op : (op : BinaryOp) (l r : Value F) → sound (binary_op op l r) ≡ true
  unfolding binary_op is_comparison
  sound-binary_op BinaryOp.or l r =
      sound-apply BinaryOp.or compute_or (of_one_type wide_int _ λ t g a b ha hb. sound-or ha hb g)
        l r
  sound-binary_op BinaryOp.xor l r =
      sound-apply BinaryOp.xor compute_xor
        (of_one_type wide_int _ λ t g a b ha hb. sound-xor ha hb g) l r
  sound-binary_op BinaryOp.and l r =
      sound-apply BinaryOp.and compute_and
        (of_one_type wide_int _ λ t g a b ha hb. sound-and ha hb g) l r
  sound-binary_op BinaryOp.modulo l r =
      sound-apply BinaryOp.modulo compute_mod
        (of_one_type wide_int _ λ t g a b ha hb. sound-mod ha hb g) l r
  sound-binary_op BinaryOp.lshift l r =
      sound-apply BinaryOp.lshift compute_shl
        (sound-shift _ λ t u g k a b ha hb. sound-shl ha hb g k) l r
  sound-binary_op BinaryOp.rshift l r =
      sound-apply BinaryOp.rshift compute_shr
        (sound-shift _ λ t u g k a b ha hb. sound-shr ha hb g k) l r
  sound-binary_op BinaryOp.plus l r =
      sound-apply BinaryOp.plus compute_add
        (of_one_type wide_num _ λ t g a b ha hb. sound-add ha hb g) l r
  sound-binary_op BinaryOp.minus l r =
      sound-apply BinaryOp.minus compute_sub
        (of_one_type wide_num _ λ t g a b ha hb. sound-sub ha hb g) l r
  sound-binary_op BinaryOp.mul l r =
      sound-apply BinaryOp.mul compute_mul
        (of_one_type wide_num _ λ t g a b ha hb. sound-mul ha hb g) l r
  sound-binary_op BinaryOp.div l r =
      sound-apply BinaryOp.div compute_div
        (of_one_type wide_num _ λ t g a b ha hb. sound-div ha hb g) l r
  sound-binary_op BinaryOp.eq l r =
      compared BinaryOp.eq compute_eq refl
        (of_one_type wide_num _ λ t g a b ha hb. sound-eq ha hb g) l r
  sound-binary_op BinaryOp.ne l r =
      compared BinaryOp.ne compute_ne refl
        (of_one_type wide_num _ λ t g a b ha hb. sound-ne ha hb g) l r
  sound-binary_op BinaryOp.lt l r =
      compared BinaryOp.lt compute_lt refl
        (of_one_type wide_num _ λ t g a b ha hb. sound-lt ha hb g) l r
  sound-binary_op BinaryOp.gt l r =
      compared BinaryOp.gt compute_gt refl
        (of_one_type wide_num _ λ t g a b ha hb. sound-gt ha hb g) l r
  sound-binary_op BinaryOp.le l r =
      compared BinaryOp.le compute_le refl
        (of_one_type wide_num _ λ t g a b ha hb. sound-le ha hb g) l r
  sound-binary_op BinaryOp.ge l r =
      compared BinaryOp.ge compute_ge refl
        (of_one_type wide_num _ λ t g a b ha hb. sound-ge ha hb g) l r
  sound-binary_op BinaryOp.oror l r = refl
  sound-binary_op _ l r = refl
