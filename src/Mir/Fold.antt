-- ===== src/Mir/Fold.antt =====
-- lib/semantics/mir/passes/constfold.cpp: constant folding. `accept` is the visitor's work on a
-- node, `eval_and_expr` the replacement of a foldable one, and `fold_operand`, which the source calls
-- on each operand, tries the second and falls back on the first.
use enlightenedc.Prelude.{false, if◌then◌else◌}
use enlightenedc.Outcome.{Outcome, ok, fail, invalid_compile_time_eval, internal_error, ◌>>=◌}
use enlightenedc.Float.{Floats}
use enlightenedc.Value.{Value, to_bool}
use enlightenedc.Value.Cast.{pr_cast, cast_to_pointer}
use enlightenedc.Mir.{Expr, Exprs, EffType, is_const_foldable}
use enlightenedc.Mir.Eval.{eval}

module _ ⦃F : Floats⦄ where
  -- The value of a folded literal, at the type of the expression that it replaces.
  unfoldable pub at_type : EffType → Value F → Outcome (Value F)
  at_type (EffType.prim t) v = pr_cast t v
  at_type (EffType.pointer complete stride) v =
      if complete then cast_to_pointer stride v else cast_to_pointer 0 v
  at_type EffType.other v = fail internal_error

  -- The literal for an expression of type `t` with outcome `o`.
  unfoldable pub literal_of : EffType → Outcome (Value F) → Outcome (Expr F)
  literal_of t o = do v ← o; w ← at_type t v; ok (Expr.literal w t)

  -- `try { … } catch (InvalidCompileTimeEval&) { … }`
  unfoldable pub or_else : Outcome (Expr F) → Outcome (Expr F) → Outcome (Expr F)
  or_else (fail invalid_compile_time_eval) o = o
  or_else r o = r

  -- `fold_operand` on an operand `e`, given what folding and visiting it come to.
  unfoldable pub fold_with : Expr F → Outcome (Expr F) → Outcome (Expr F) → Outcome (Expr F)
  unfolding or_else
  fold_with e folded visited = if is_const_foldable false e then or_else folded visited else visited

  unfoldable mutual
    pub eval_and_expr : Expr F → Outcome (Expr F)
    eval_and_expr (Expr.cond c a b t) = do
      v ← eval c
      if to_bool v
          then (if is_const_foldable false a then eval_and_expr a else accept a)
          else (if is_const_foldable false b then eval_and_expr b else accept b)
    eval_and_expr (Expr.literal v t) = ok (Expr.literal v t)
    eval_and_expr (Expr.text t) = ok (Expr.text t)
    eval_and_expr (Expr.binary op l r t) = literal_of t (eval (Expr.binary op l r t))
    eval_and_expr (Expr.unary op e t) = literal_of t (eval (Expr.unary op e t))
    eval_and_expr (Expr.cast target e t) = literal_of t (eval (Expr.cast target e t))
    eval_and_expr (Expr.assign op l r t) = literal_of t (eval (Expr.assign op l r t))
    eval_and_expr (Expr.ident i t) = literal_of t (eval (Expr.ident i t))
    eval_and_expr (Expr.call f args t) = literal_of t (eval (Expr.call f args t))
    eval_and_expr (Expr.member e t) = literal_of t (eval (Expr.member e t))
    eval_and_expr (Expr.reint e t) = literal_of t (eval (Expr.reint e t))
    eval_and_expr (Expr.subscr a i t) = literal_of t (eval (Expr.subscr a i t))
    eval_and_expr (Expr.postfix op e t) = literal_of t (eval (Expr.postfix op e t))
    eval_and_expr (Expr.sizeof_expr e n t) = literal_of t (eval (Expr.sizeof_expr e n t))
    eval_and_expr (Expr.sizeof_type n t) = literal_of t (eval (Expr.sizeof_type n t))
    eval_and_expr (Expr.sizeof_bad t) = literal_of t (eval (Expr.sizeof_bad t))

    pub accept : Expr F → Outcome (Expr F)
    accept (Expr.binary op l r t) = do
      l' ← fold_with l (eval_and_expr l) (accept l)
      r' ← fold_with r (eval_and_expr r) (accept r)
      ok (Expr.binary op l' r' t)
    accept (Expr.unary op e t) = do
      e' ← fold_with e (eval_and_expr e) (accept e)
      ok (Expr.unary op e' t)
    accept (Expr.cast target e t) = do
      e' ← fold_with e (eval_and_expr e) (accept e)
      ok (Expr.cast target e' t)
    accept (Expr.assign op l r t) = do
      l' ← accept l
      r' ← fold_with r (eval_and_expr r) (accept r)
      ok (Expr.assign op l' r' t)
    accept (Expr.cond c a b t) = do
      c' ← fold_with c (eval_and_expr c) (accept c)
      a' ← fold_with a (eval_and_expr a) (accept a)
      b' ← fold_with b (eval_and_expr b) (accept b)
      ok (Expr.cond c' a' b' t)
    accept (Expr.ident i t) = ok (Expr.ident i t)
    accept (Expr.literal v t) = ok (Expr.literal v t)
    accept (Expr.text t) = ok (Expr.text t)
    accept (Expr.call f args t) = do
      f' ← accept f
      args' ← fold_args args
      ok (Expr.call f' args' t)
    accept (Expr.member e t) = do e' ← accept e; ok (Expr.member e' t)
    accept (Expr.reint e t) = do e' ← accept e; ok (Expr.reint e' t)
    accept (Expr.subscr a i t) = do a' ← accept a; i' ← accept i; ok (Expr.subscr a' i' t)
    accept (Expr.postfix op e t) = do e' ← accept e; ok (Expr.postfix op e' t)
    accept (Expr.sizeof_expr e n t) = do e' ← accept e; ok (Expr.sizeof_expr e' n t)
    accept (Expr.sizeof_type n t) = ok (Expr.sizeof_type n t)
    accept (Expr.sizeof_bad t) = ok (Expr.sizeof_bad t)

    pub fold_args : Exprs F → Outcome (Exprs F)
    fold_args Exprs.nil = ok Exprs.nil
    fold_args (Exprs.cons e es) = do
      e' ← fold_with e (eval_and_expr e) (accept e)
      es' ← fold_args es
      ok (Exprs.cons e' es')

  unfoldable pub fold_operand : Expr F → Outcome (Expr F)
  fold_operand e = fold_with e (eval_and_expr e) (accept e)
