-- ===== src/Mir.antt =====
-- include/semantics/mir/mir.hpp: the expressions of the middle representation, as far as constant
-- evaluation and folding look at them. Locations and scopes are dropped. An expression carries its
-- `eff_type`, which the validator sets.
pub mod Eval
pub mod Fold
pub mod Typed
pub mod Yields
pub mod Keeps
pub mod Preserve
pub mod Retype
pub mod Sound
pub mod Strict
use enlightenedc.Prelude.{ℕ, Bool, true, false, ◌&&◌, not, Option, none, some, if◌then◌else◌}
use enlightenedc.Token.Kinds.{PrimType, BinaryOp, UnaryOp, AssignOp, PostfixOp}
use enlightenedc.Primitive.{unaryop_is_const_foldable}
use enlightenedc.Float.{Floats}
use enlightenedc.Value.{Value}

-- A type, as far as the evaluator tells types apart: a primitive type, a pointer with the
-- completeness of its base and its stride, or any other.
pub data EffType : Type 0 where
  prim : PrimType → EffType
  pointer : Bool → ℕ → EffType
  other : EffType

-- The symbol of an identifier: whether it is a variable, the value it was declared with, and whether
-- it is a parameter of a function.
pub record Ident (F : Floats) : Type 0 where
  pub is_var : Bool
  pub value : Option (Value F)
  pub funcparam : Bool

-- The last argument is the `eff_type`. A cast has its target first; the size that `sizeof` yields is
-- the backend's, `sizeof_expr` has that of the type of its operand, if that is an identifier, and
-- `sizeof_bad` is one of a function type.
mutual
  pub data Expr (F : Floats) : Type 0 where
    binary : BinaryOp → Expr F → Expr F → EffType → Expr F
    unary : UnaryOp → Expr F → EffType → Expr F
    cast : EffType → Expr F → EffType → Expr F
    assign : AssignOp → Expr F → Expr F → EffType → Expr F
    cond : Expr F → Expr F → Expr F → EffType → Expr F
    ident : Ident F → EffType → Expr F
    literal : Value F → EffType → Expr F
    text : EffType → Expr F
    call : Expr F → Exprs F → EffType → Expr F
    member : Expr F → EffType → Expr F
    reint : Expr F → EffType → Expr F
    subscr : Expr F → Expr F → EffType → Expr F
    postfix : PostfixOp → Expr F → EffType → Expr F
    sizeof_expr : Expr F → ℕ → EffType → Expr F
    sizeof_type : ℕ → EffType → Expr F
    sizeof_bad : EffType → Expr F

  pub data Exprs (F : Floats) : Type 0 where
    nil : Exprs F
    cons : Expr F → Exprs F → Exprs F

module _ ⦃F : Floats⦄ where
  unfoldable pub eff_type : Expr F → EffType
  eff_type (Expr.binary op l r t) = t
  eff_type (Expr.unary op e t) = t
  eff_type (Expr.cast target e t) = t
  eff_type (Expr.assign op l r t) = t
  eff_type (Expr.cond c a b t) = t
  eff_type (Expr.ident i t) = t
  eff_type (Expr.literal v t) = t
  eff_type (Expr.text t) = t
  eff_type (Expr.call f args t) = t
  eff_type (Expr.member e t) = t
  eff_type (Expr.reint e t) = t
  eff_type (Expr.subscr a i t) = t
  eff_type (Expr.postfix op e t) = t
  eff_type (Expr.sizeof_expr e n t) = t
  eff_type (Expr.sizeof_type n t) = t
  eff_type (Expr.sizeof_bad t) = t

  abbrev is_some : Option (Value F) → Bool
  is_some none = false
  is_some (some v) = true

  -- `VarSymbol::is_const_foldable`, behind `as_varsym`.
  unfoldable pub ident_is_const_foldable : Ident F → Bool
  ident_is_const_foldable i = i.is_var && is_some i.value && not i.funcparam

  -- `is_const_foldable(strict)`.
  unfoldable pub is_const_foldable : Bool → Expr F → Bool
  unfolding ident_is_const_foldable unaryop_is_const_foldable
  is_const_foldable strict (Expr.binary op l r t) =
      is_const_foldable strict l && is_const_foldable strict r
  is_const_foldable strict (Expr.unary op e t) =
      is_const_foldable strict e && unaryop_is_const_foldable op
  is_const_foldable strict (Expr.cast target e t) = is_const_foldable strict e
  is_const_foldable strict (Expr.assign op l r t) = false
  is_const_foldable strict (Expr.cond c a b t) =
      if strict
      then is_const_foldable true c && is_const_foldable true a && is_const_foldable true b
      else is_const_foldable false c
  is_const_foldable strict (Expr.ident i t) = ident_is_const_foldable i
  is_const_foldable strict (Expr.literal v t) = true
  is_const_foldable strict (Expr.text t) = false
  is_const_foldable strict (Expr.call f args t) = false
  is_const_foldable strict (Expr.member e t) = false
  is_const_foldable strict (Expr.reint e t) = false
  is_const_foldable strict (Expr.subscr a i t) = false
  is_const_foldable strict (Expr.postfix op e t) = false
  is_const_foldable strict (Expr.sizeof_expr e n t) = true
  is_const_foldable strict (Expr.sizeof_type n t) = true
  is_const_foldable strict (Expr.sizeof_bad t) = true
