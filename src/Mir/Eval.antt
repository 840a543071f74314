-- ===== src/Mir/Eval.antt =====
-- lib/eval/consteval.cpp: the evaluation of an expression at compile time.
use enlightenedc.Prelude.{ℕ, Bool, true, false, not, ◌&&◌, Option, none, some, if◌then◌else◌}
use enlightenedc.Token.Kinds.{BinaryOp, UnaryOp}
use enlightenedc.Outcome.{Outcome, ok, fail, invalid_compile_time_eval, ◌>>=◌}
use enlightenedc.Float.{Floats}
use enlightenedc.Value.{Value, to_bool}
use enlightenedc.Value.Cast.{pr_cast, cast_to_pointer}
use enlightenedc.Value.Binary.{binary_op}
use enlightenedc.Value.Unary.{not_op, tilde_op, neg_op, pos_op}
use enlightenedc.Mir.{Expr, Ident, EffType}

module _ ⦃F : Floats⦄ where
  -- The operands are outcomes, so that `||` and `&&` can leave the right one alone.
  unfoldable pub eval_binary : BinaryOp → Outcome (Value F) → Outcome (Value F) → Outcome (Value F)
  eval_binary BinaryOp.oror l r = do
    a ← l
    if to_bool a then ok (Value.bool true) else (r >>= λ b. ok (Value.bool (to_bool b)))
  eval_binary BinaryOp.andand l r = do
    a ← l
    if to_bool a then (r >>= λ b. ok (Value.bool (to_bool b))) else ok (Value.bool false)
  eval_binary op l r = do a ← l; b ← r; binary_op op a b

  unfoldable pub eval_unary : UnaryOp → Value F → Outcome (Value F)
  eval_unary UnaryOp.not v = not_op v
  eval_unary UnaryOp.neg v = neg_op v
  eval_unary UnaryOp.tilde v = tilde_op v
  eval_unary UnaryOp.pos v = pos_op v
  eval_unary _ v = fail invalid_compile_time_eval

  -- The conversion of a cast to its target.
  unfoldable pub eval_cast : EffType → Value F → Outcome (Value F)
  eval_cast (EffType.prim t) v = pr_cast t v
  eval_cast (EffType.pointer complete stride) v =
      if complete then cast_to_pointer stride v else cast_to_pointer 0 v
  eval_cast EffType.other v = fail invalid_compile_time_eval

  unfoldable pub eval_value : Bool → Option (Value F) → Outcome (Value F)
  eval_value usable none = fail invalid_compile_time_eval
  eval_value usable (some v) = if usable then ok v else fail invalid_compile_time_eval

  unfoldable pub eval_ident : Ident F → Outcome (Value F)
  unfolding eval_value
  eval_ident i = eval_value (i.is_var && not i.funcparam) i.value

  -- `sizeof` takes an expression only if it is an identifier.
  unfoldable pub eval_sizeof : Expr F → ℕ → Outcome (Value F)
  eval_sizeof (Expr.ident i t) size = ok (Value.u64 size)
  eval_sizeof _ size = fail invalid_compile_time_eval

  unfoldable pub eval : Expr F → Outcome (Value F)
  eval (Expr.binary op l r t) = eval_binary op (eval l) (eval r)
  eval (Expr.unary op e t) = do v ← eval e; eval_unary op v
  eval (Expr.cast target e t) = do v ← eval e; eval_cast target v
  eval (Expr.assign op l r t) = fail invalid_compile_time_eval
  eval (Expr.cond c a b t) = do v ← eval c; if to_bool v then eval a else eval b
  eval (Expr.ident i t) = eval_ident i
  eval (Expr.literal v t) = ok v
  eval (Expr.text t) = fail invalid_compile_time_eval
  eval (Expr.call f args t) = fail invalid_compile_time_eval
  eval (Expr.member e t) = fail invalid_compile_time_eval
  eval (Expr.reint e t) = fail invalid_compile_time_eval
  eval (Expr.subscr a i t) = fail invalid_compile_time_eval
  eval (Expr.postfix op e t) = fail invalid_compile_time_eval
  eval (Expr.sizeof_expr e n t) = eval_sizeof e n
  eval (Expr.sizeof_type n t) = ok (Value.u64 n)
  eval (Expr.sizeof_bad t) = fail invalid_compile_time_eval
