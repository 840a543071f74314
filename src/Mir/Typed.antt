-- ===== src/Mir/Typed.antt =====
-- Expressions as the validator types them, and the values of a type.
use enlightenedc.Prelude.{ℕ, ◌^◌, ◌≡◌, refl, Bool, true, false, ◌&&◌, some, ltb, if◌then◌else◌}
use enlightenedc.Token.Kinds.{BinaryOp, UnaryOp, PrimType}
use enlightenedc.Primitive.{PrimExprTypes, pr_check_binary_op}
use enlightenedc.Float.{Floats}
use enlightenedc.Primitive.Enumerate.{pr_eq}
use enlightenedc.Value.{Value, ptr_value}
use enlightenedc.Value.HasType.{HasType}
use enlightenedc.Value.InRange.{in_range}
use enlightenedc.Value.Promoted.{int_promote}
use enlightenedc.Mir.{Expr, Ident, EffType, eff_type}

abbrev pub is_logical : BinaryOp → Bool
is_logical BinaryOp.oror = true
is_logical BinaryOp.andand = true
is_logical _ = false

-- Plus, minus and the complement.
abbrev pub is_sign : UnaryOp → Bool
is_sign UnaryOp.pos = true
is_sign UnaryOp.neg = true
is_sign UnaryOp.tilde = true
is_sign _ = false

-- The operators on places and pointers, which are never evaluated.
abbrev pub is_place : UnaryOp → Bool
is_place UnaryOp.pos = false
is_place UnaryOp.neg = false
is_place UnaryOp.tilde = false
is_place UnaryOp.not = false
is_place _ = true

module _ ⦃F : Floats⦄ where
  -- A value of a type, within what a primitive type can hold; a pointer has the stride of its type.
  abbrev pub HasEff : EffType → Value F → Type 0
  HasEff (EffType.prim t) v = HasType t v × (in_range v ≡ true)
  HasEff (EffType.pointer complete stride) v =
      (a : ℕ) × (v ≡ Value.ptr (ptr_value a (if complete then stride else 0)))
  HasEff EffType.other v = ⊥

  -- The expressions that are never evaluated.
  abbrev pub is_runtime : Expr F → Bool
  is_runtime (Expr.assign op l r t) = true
  is_runtime (Expr.text t) = true
  is_runtime (Expr.call f args t) = true
  is_runtime (Expr.member e t) = true
  is_runtime (Expr.reint e t) = true
  is_runtime (Expr.subscr a i t) = true
  is_runtime (Expr.postfix op e t) = true
  is_runtime (Expr.sizeof_bad t) = true
  is_runtime _ = false

-- Whether an expression of primitive and pointer types has the type that the validator gives it:
-- `pr_check_binary_op` gives that of a binary operator, `+`, `-`, `~` and `!` have the type of their
-- operand, and `sizeof` is U64, the size type of a 64-bit target. Arithmetic and comparison of pointers and values of enumerations are
-- left out. The remaining unary operators and the nodes that are never evaluated may have any
-- type.
pub data Typed ⦃F : Floats⦄ : EffType → Expr F → Type 0 where
  binary :
      {op : BinaryOp} {l r : Expr F} {a b : PrimType} (types : PrimExprTypes)
      → is_logical op ≡ false
      → pr_check_binary_op op a b ≡ some types
      → Typed (EffType.prim a) l
      → Typed (EffType.prim b) r
      → Typed (EffType.prim types.expr_type) (Expr.binary op l r (EffType.prim types.expr_type))
  logical :
      {op : BinaryOp} {l r : Expr F} {t u : EffType}
      → is_logical op ≡ true
      → Typed t l
      → Typed u r
      → Typed (EffType.prim PrimType.bool) (Expr.binary op l r (EffType.prim PrimType.bool))
  sign :
      {op : UnaryOp} {e : Expr F} {a : PrimType}
      → is_sign op ≡ true
      → Typed (EffType.prim a) e
      → Typed (EffType.prim a) (Expr.unary op e (EffType.prim a))
  negation :
      {e : Expr F} {a : PrimType}
      → Typed (EffType.prim a) e
      → Typed (EffType.prim a) (Expr.unary UnaryOp.not e (EffType.prim a))
  place :
      {op : UnaryOp} {e : Expr F} {t : EffType} (u : EffType)
      → is_place op ≡ true
      → Typed t e
      → Typed u (Expr.unary op e u)
  cast : {e : Expr F} {t : EffType} (u : EffType) → Typed t e → Typed u (Expr.cast u e u)
  cond :
      {c a b : Expr F} {s t : EffType}
      → Typed s c
      → Typed t a
      → Typed t b
      → Typed t (Expr.cond c a b t)
  ident :
      (i : Ident F) {t : EffType}
      → ((v : Value F) → i.value ≡ some v → HasEff t v)
      → Typed t (Expr.ident i t)
  literal : {v : Value F} {t : EffType} → HasEff t v → Typed t (Expr.literal v t)
  sizeof_expr :
      (e : Expr F) (n : ℕ)
      → ltb n (2 ^ 64) ≡ true
      → Typed (EffType.prim PrimType.u64) (Expr.sizeof_expr e n (EffType.prim PrimType.u64))
  sizeof_type :
      (n : ℕ)
      → ltb n (2 ^ 64) ≡ true
      → Typed (EffType.prim PrimType.u64) (Expr.sizeof_type n (EffType.prim PrimType.u64))
  runtime : (e : Expr F) → is_runtime e ≡ true → Typed (eff_type e) e

pub both : (a b : Bool) → (a && b) ≡ true → (a ≡ true) × (b ≡ true)
both true b h = (refl, h)
both false b h = cc

-- Whether a unary operator on an operand of a type yields a value of that type. The evaluator
-- promotes the operand of `+`, `-` and `~` to at least I32, and its `!` yields a boolean, while the
-- validator keeps the operand's type.
abbrev pub keeps_type : UnaryOp → EffType → Bool
keeps_type UnaryOp.pos (EffType.prim a) = pr_eq (int_promote a) a
keeps_type UnaryOp.neg (EffType.prim a) = pr_eq (int_promote a) a
keeps_type UnaryOp.tilde (EffType.prim a) = pr_eq (int_promote a) a
keeps_type UnaryOp.not (EffType.prim a) = pr_eq PrimType.bool a
keeps_type _ t = true

-- The same for every unary operator of the part of an expression that can be evaluated.
unfoldable pub unnarrowed : ⦃F : Floats⦄ → Expr F → Bool
unnarrowed (Expr.binary op l r t) = unnarrowed l && unnarrowed r
unnarrowed (Expr.unary op e t) = keeps_type op t && unnarrowed e
unnarrowed (Expr.cast u e t) = unnarrowed e
unnarrowed (Expr.cond c a b t) = unnarrowed c && (unnarrowed a && unnarrowed b)
unnarrowed _ = true
