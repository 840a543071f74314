-- ===== src/Mir/Sound.antt =====
-- Compile-time evaluation never reaches an unreachable branch.
use enlightenedc.Value.Unary.{not_op, neg_op, tilde_op, pos_op}
use enlightenedc.Prelude.{ℕ, ◌≡◌, refl, Bool, true, false, Option, none, some, arith}
use enlightenedc.Token.Kinds.{BinaryOp, UnaryOp}
use enlightenedc.Outcome.{Outcome}
use enlightenedc.Float.{Floats}
use enlightenedc.Value.{Value}
use enlightenedc.Value.Cast.{cast_to_pointer}
use enlightenedc.Value.Safety.{sound}
use enlightenedc.Value.Progress.{sound->>=, sound-binary_op, sound-pr_cast}
use enlightenedc.Mir.{Expr, EffType}
use enlightenedc.Mir.Eval.{
  eval, eval_binary, eval_unary, eval_cast, eval_value, eval_ident, eval_sizeof,
}

module _ ⦃F : Floats⦄ where
  sound-eval_binary :
      (op : BinaryOp) (l r : Outcome (Value F))
      → sound l ≡ true
      → sound r ≡ true
      → sound (eval_binary op l r) ≡ true
  unfolding eval_binary
  sound-eval_binary BinaryOp.oror l r hl hr = ground arith
  sound-eval_binary BinaryOp.andand l r hl hr = ground arith
  sound-eval_binary op l r hl hr =
      sound->>= l _ hl λ a _. sound->>= r _ hr λ b _. sound-binary_op op a b

  sound-eval_unary : (op : UnaryOp) (v : Value F) → sound (eval_unary op v) ≡ true
  unfolding eval_unary not_op neg_op tilde_op pos_op
  sound-eval_unary UnaryOp.neg v = ground arith
  sound-eval_unary _ v = ground arith

  sound-eval_cast : (t : EffType) (v : Value F) → sound (eval_cast t v) ≡ true
  unfolding eval_cast cast_to_pointer
  sound-eval_cast (EffType.prim t) v = sound-pr_cast t v
  sound-eval_cast _ v = ground arith

  sound-eval_value : (usable : Bool) (o : Option (Value F)) → sound (eval_value usable o) ≡ true
  unfolding eval_value
  sound-eval_value usable none = refl
  sound-eval_value true (some v) = refl
  sound-eval_value false (some v) = refl

  sound-eval_sizeof : (e : Expr F) (n : ℕ) → sound (eval_sizeof e n) ≡ true
  unfolding eval_sizeof
  sound-eval_sizeof (Expr.ident i t) n = refl
  sound-eval_sizeof _ n = refl

  -- Evaluating an expression never ends in an unreachable branch or an unfinished one.
  pub sound-eval : (e : Expr F) → sound (eval e) ≡ true
  unfolding eval eval_ident
  sound-eval (Expr.binary op l r t) =
      sound-eval_binary op (eval l) (eval r) (sound-eval l) (sound-eval r)
  sound-eval (Expr.unary op e t) = sound->>= (eval e) _ (sound-eval e) λ v _. sound-eval_unary op v
  sound-eval (Expr.cast u e t) = sound->>= (eval e) _ (sound-eval e) λ v _. sound-eval_cast u v
  sound-eval (Expr.cond c a b t) =
      let ha = sound-eval a in
      let hb = sound-eval b in sound->>= (eval c) _ (sound-eval c) λ v _. ground arith
  sound-eval (Expr.ident i t) = sound-eval_value _ i.value
  sound-eval (Expr.sizeof_expr e n t) = sound-eval_sizeof e n
  sound-eval (Expr.sizeof_type n t) = refl
  sound-eval _ = refl
