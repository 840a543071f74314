-- ===== src/Mir/Strict.antt =====
-- Strict and lax foldability, and what folding does with an expression that cannot be evaluated.
use enlightenedc.Prelude.{◌≡◌, refl, Bool, true, false, arith}
use enlightenedc.Outcome.{Outcome, ok, fail, invalid_compile_time_eval, ◌>>=◌}
use enlightenedc.Float.{Floats}
use enlightenedc.Mir.{Expr, Exprs, is_const_foldable}
use enlightenedc.Mir.Fold.{or_else, fold_with, eval_and_expr, accept, fold_args, fold_operand}

-- Whether an outcome is not the exception that folding catches.
abbrev pub caught {ℓ} : {A : Type ℓ} → Outcome A → Bool
caught (fail invalid_compile_time_eval) = false
caught _ = true

caught->>= {ℓ κ} :
    {A : Type ℓ} {B : Type κ} (m : Outcome A) (f : A → Outcome B)
    → caught m ≡ true
    → ((a : A) → caught (f a) ≡ true)
    → caught (m >>= f) ≡ true
caught->>= (ok a) f h k = k a
caught->>= (fail e) f h k = ground arith

module _ ⦃F : Floats⦄ where
  -- An expression that is foldable as a whole (strictly) is one that folding tries.
  pub is_const_foldable_strict :
      (e : Expr F) → is_const_foldable true e ≡ true → is_const_foldable false e ≡ true
  unfolding is_const_foldable
  is_const_foldable_strict (Expr.binary op l r t) h =
      let hl = is_const_foldable_strict l in let hr = is_const_foldable_strict r in ground arith
  is_const_foldable_strict (Expr.unary op e t) h =
      let he = is_const_foldable_strict e in ground arith
  is_const_foldable_strict (Expr.cast u e t) h = is_const_foldable_strict e h
  is_const_foldable_strict (Expr.cond c a b t) h =
      let hc = is_const_foldable_strict c in ground arith
  is_const_foldable_strict (Expr.ident i t) h = h
  is_const_foldable_strict (Expr.literal v t) h = refl
  is_const_foldable_strict _ h = h

  caught-or_else : (m o : Outcome (Expr F)) → caught o ≡ true → caught (or_else m o) ≡ true
  unfolding or_else
  caught-or_else (ok a) o h = refl
  caught-or_else (fail e) o h = ground arith

  caught-fold_with :
      (e : Expr F) (m o : Outcome (Expr F)) → caught o ≡ true → caught (fold_with e m o) ≡ true
  unfolding fold_with
  caught-fold_with e m o h = let k = caught-or_else m o h in ground arith

  mutual
    unfolding accept fold_args

    caught-accept : (e : Expr F) → caught (accept e) ≡ true
    caught-accept (Expr.binary op l r t) =
        caught->>= _ _ (caught-fold_with l _ _ (caught-accept l))
          λ l'. caught->>= _ _ (caught-fold_with r _ _ (caught-accept r)) λ r'. refl
    caught-accept (Expr.unary op e t) =
        caught->>= _ _ (caught-fold_with e _ _ (caught-accept e)) λ e'. refl
    caught-accept (Expr.cast u e t) =
        caught->>= _ _ (caught-fold_with e _ _ (caught-accept e)) λ e'. refl
    caught-accept (Expr.assign op l r t) =
        caught->>= _ _ (caught-accept l)
          λ l'. caught->>= _ _ (caught-fold_with r _ _ (caught-accept r)) λ r'. refl
    caught-accept (Expr.cond c a b t) =
        caught->>= _ _ (caught-fold_with c _ _ (caught-accept c)) λ c'.
          caught->>= _ _ (caught-fold_with a _ _ (caught-accept a))
            λ a'. caught->>= _ _ (caught-fold_with b _ _ (caught-accept b)) λ b'. refl
    caught-accept (Expr.ident i t) = refl
    caught-accept (Expr.literal v t) = refl
    caught-accept (Expr.text t) = refl
    caught-accept (Expr.call f args t) =
        caught->>= _ _ (caught-accept f) λ f'. caught->>= _ _ (caught-fold_args args) λ as'. refl
    caught-accept (Expr.member e t) = caught->>= _ _ (caught-accept e) λ e'. refl
    caught-accept (Expr.reint e t) = caught->>= _ _ (caught-accept e) λ e'. refl
    caught-accept (Expr.subscr a i t) =
        caught->>= _ _ (caught-accept a) λ a'. caught->>= _ _ (caught-accept i) λ i'. refl
    caught-accept (Expr.postfix op e t) = caught->>= _ _ (caught-accept e) λ e'. refl
    caught-accept (Expr.sizeof_expr e n t) = caught->>= _ _ (caught-accept e) λ e'. refl
    caught-accept (Expr.sizeof_type n t) = refl
    caught-accept (Expr.sizeof_bad t) = refl

    caught-fold_args : (es : Exprs F) → caught (fold_args es) ≡ true
    caught-fold_args Exprs.nil = refl
    caught-fold_args (Exprs.cons e es) =
        caught->>= _ _ (caught-fold_with e _ _ (caught-accept e))
          λ e'. caught->>= _ _ (caught-fold_args es) λ es'. refl

  -- Folding an operand never lets the exception of an expression that cannot be evaluated escape: it
  -- falls back on visiting the operand, and so does the visit on each operand of its own.
  pub caught-fold_operand : (e : Expr F) → caught (fold_operand e) ≡ true
  unfolding fold_operand
  caught-fold_operand e = caught-fold_with e (eval_and_expr e) (accept e) (caught-accept e)
