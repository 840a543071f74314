-- ===== src/Mir/Keeps.antt =====
-- What the steps of folding evaluate to.
use enlightenedc.Prelude.{ℕ, ◌≡◌, refl, sym, ◌∙◌, Bool, true, false, if◌then◌else◌, ap}
use enlightenedc.Outcome.{Outcome, ok, fail, invalid_compile_time_eval, ◌>>=◌, >>=-eq-ok, ok_eq}
use enlightenedc.Float.{Floats}
use enlightenedc.Value.{Value}
use enlightenedc.Value.Cast.{cast_to_pointer}
use enlightenedc.Value.InRange.{pr_cast_self}
use enlightenedc.Mir.{Expr, EffType, is_const_foldable}
use enlightenedc.Mir.Eval.{eval, eval_sizeof}
use enlightenedc.Mir.Fold.{
  at_type, literal_of, or_else, fold_with, eval_and_expr, accept, fold_args,
}
use enlightenedc.Mir.Typed.{HasEff, is_runtime}

module _ ⦃F : Floats⦄ where
  -- What a step of folding makes of an expression evaluates to `o`.
  abbrev pub Keeps : Outcome (Expr F) → Outcome (Value F) → Type 0
  Keeps m o = (e' : Expr F) → m ≡ ok e' → eval e' ≡ o

  at_type_self : (t : EffType) (v : Value F) → HasEff t v → at_type t v ≡ ok v
  unfolding at_type cast_to_pointer
  at_type_self (EffType.prim t) v (h, g) = pr_cast_self h g
  at_type_self (EffType.pointer true stride) v (a, h) = rw h
  at_type_self (EffType.pointer false stride) v (a, h) = rw h
  at_type_self EffType.other v h = absurd h

  pub Keeps-ok : (e : Expr F) (o : Outcome (Value F)) → eval e ≡ o → Keeps (ok e) o
  Keeps-ok e o h e' k = ap (λ x. eval x) (sym (ok_eq k)) ∙ h

  pub Keeps->>= {ℓ} :
      {A : Type ℓ} (m : Outcome A) (f : A → Outcome (Expr F)) (o : Outcome (Value F))
      → ((a : A) → m ≡ ok a → Keeps (f a) o)
      → Keeps (m >>= f) o
  Keeps->>= m f o h e' k = let (a, ha, k₁) = >>=-eq-ok m f k in h a ha e' k₁

  pub Keeps-literal_of :
      (t : EffType) (o : Outcome (Value F))
      → ((v : Value F) → o ≡ ok v → HasEff t v)
      → Keeps (literal_of t o) o
  unfolding literal_of eval
  Keeps-literal_of t o h = Keeps->>= o _ _ λ v hv. Keeps->>= (at_type t v) _ _ λ w hw.
      Keeps-ok (Expr.literal w t) _ (ap ok (ok_eq (sym hw ∙ at_type_self t v (h v hv))) ∙ sym hv)

  Keeps-or_else :
      (m n : Outcome (Expr F)) (o : Outcome (Value F))
      → Keeps m o
      → Keeps n o
      → Keeps (or_else m n) o
  unfolding or_else
  Keeps-or_else (ok a) n o h k = h
  Keeps-or_else (fail invalid_compile_time_eval) n o h k = k
  Keeps-or_else (fail _) n o h k = h

  pub Keeps-if :
      (b : Bool) (m n : Outcome (Expr F)) (o : Outcome (Value F))
      → Keeps m o
      → Keeps n o
      → Keeps (if b then m else n) o
  Keeps-if true m n o h k = h
  Keeps-if false m n o h k = k

  -- The two ways to fold an operand keep its value.
  abbrev pub Kept : Expr F → Type 0
  Kept e = Keeps (eval_and_expr e) (eval e) × Keeps (accept e) (eval e)

  pub Keeps-operand :
      (e : Expr F) → Kept e → Keeps (fold_with e (eval_and_expr e) (accept e)) (eval e)
  unfolding fold_with
  Keeps-operand e (h, k) =
      Keeps-if (is_const_foldable false e) _ _ _
        (Keeps-or_else (eval_and_expr e) (accept e) (eval e) h k) k

  -- A node that is never evaluated is replaced by one of its kind.
  pub Keeps-runtime : (e : Expr F) → is_runtime e ≡ true → Keeps (accept e) (eval e)
  unfolding eval accept
  Keeps-runtime (Expr.assign op l r t) h =
      Keeps->>= (accept l) _ _
        λ l' _. Keeps->>= (fold_with r (eval_and_expr r) (accept r)) _ _ λ r' _. Keeps-ok _ _ refl
  Keeps-runtime (Expr.text t) h = Keeps-ok _ _ refl
  Keeps-runtime (Expr.call f args t) h =
      Keeps->>= (accept f) _ _ λ f' _. Keeps->>= (fold_args args) _ _ λ args' _. Keeps-ok _ _ refl
  Keeps-runtime (Expr.member e t) h = Keeps->>= (accept e) _ _ λ e' _. Keeps-ok _ _ refl
  Keeps-runtime (Expr.reint e t) h = Keeps->>= (accept e) _ _ λ e' _. Keeps-ok _ _ refl
  Keeps-runtime (Expr.subscr a i t) h =
      Keeps->>= (accept a) _ _ λ a' _. Keeps->>= (accept i) _ _ λ i' _. Keeps-ok _ _ refl
  Keeps-runtime (Expr.postfix op e t) h = Keeps->>= (accept e) _ _ λ e' _. Keeps-ok _ _ refl
  Keeps-runtime (Expr.sizeof_bad t) h = Keeps-ok _ _ refl
  Keeps-runtime (Expr.binary op l r t) h = cc
  Keeps-runtime _ h = cc

  pub Keeps-evaluated : (e : Expr F) → is_runtime e ≡ true → Keeps (eval_and_expr e) (eval e)
  unfolding eval_and_expr literal_of eval
  Keeps-evaluated (Expr.text t) h e' k = Keeps-ok (Expr.text t) _ refl e' k
  Keeps-evaluated (Expr.assign op l r t) h e' k = cc
  Keeps-evaluated _ h e' k = cc

  -- Visiting the operand of a `sizeof` leaves an identifier one, and makes none.
  unfoldable pub Sized : Outcome (Expr F) → Outcome (Value F) → ℕ → Type 0
  Sized m o n = (e' : Expr F) → m ≡ ok e' → eval_sizeof e' n ≡ o

  Sized-ok : (e : Expr F) (o : Outcome (Value F)) (n : ℕ) → eval_sizeof e n ≡ o → Sized (ok e) o n
  unfolding Sized
  Sized-ok e o n h e' k = ap (λ x. eval_sizeof x n) (sym (ok_eq k)) ∙ h

  Sized->>= {ℓ} :
      {A : Type ℓ} (m : Outcome A) (f : A → Outcome (Expr F)) (o : Outcome (Value F)) (n : ℕ)
      → ((a : A) → Sized (f a) o n)
      → Sized (m >>= f) o n
  unfolding Sized
  Sized->>= m f o n h e' k = let (a, ha, k₁) = >>=-eq-ok m f k in h a e' k₁

  pub Sized-accept : (e : Expr F) (n : ℕ) → Sized (accept e) (eval_sizeof e n) n
  unfolding accept eval_sizeof
  Sized-accept (Expr.binary op l r t) n =
      Sized->>= (fold_with l (eval_and_expr l) (accept l)) _ _ n λ l'.
        Sized->>= (fold_with r (eval_and_expr r) (accept r)) _ _ n
          λ r'. Sized-ok (Expr.binary op l' r' t) _ n refl
  Sized-accept (Expr.assign op l r t) n = Sized->>= (accept l) _ _ n λ l'.
      Sized->>= (fold_with r (eval_and_expr r) (accept r)) _ _ n
        λ r'. Sized-ok (Expr.assign op l' r' t) _ n refl
  Sized-accept (Expr.cond c a b t) n =
      Sized->>= (fold_with c (eval_and_expr c) (accept c)) _ _ n λ c'.
        Sized->>= (fold_with a (eval_and_expr a) (accept a)) _ _ n λ a'.
          Sized->>= (fold_with b (eval_and_expr b) (accept b)) _ _ n
            λ b'. Sized-ok (Expr.cond c' a' b' t) _ n refl
  Sized-accept (Expr.call f args t) n =
      Sized->>= (accept f) _ _ n
        λ f'. Sized->>= (fold_args args) _ _ n λ args'. Sized-ok (Expr.call f' args' t) _ n refl
  Sized-accept (Expr.subscr a i t) n =
      Sized->>= (accept a) _ _ n
        λ a'. Sized->>= (accept i) _ _ n λ i'. Sized-ok (Expr.subscr a' i' t) _ n refl
  Sized-accept (Expr.unary op e t) n =
      Sized->>= (fold_with e (eval_and_expr e) (accept e)) _ _ n
        λ e'. Sized-ok (Expr.unary op e' t) _ n refl
  Sized-accept (Expr.cast u e t) n =
      Sized->>= (fold_with e (eval_and_expr e) (accept e)) _ _ n
        λ e'. Sized-ok (Expr.cast u e' t) _ n refl
  Sized-accept (Expr.member e t) n =
      Sized->>= (accept e) _ _ n λ e'. Sized-ok (Expr.member e' t) _ n refl
  Sized-accept (Expr.reint e t) n =
      Sized->>= (accept e) _ _ n λ e'. Sized-ok (Expr.reint e' t) _ n refl
  Sized-accept (Expr.postfix op e t) n =
      Sized->>= (accept e) _ _ n λ e'. Sized-ok (Expr.postfix op e' t) _ n refl
  Sized-accept (Expr.sizeof_expr e m t) n =
      Sized->>= (accept e) _ _ n λ e'. Sized-ok (Expr.sizeof_expr e' m t) _ n refl
  Sized-accept (Expr.ident i t) n = Sized-ok (Expr.ident i t) _ n refl
  Sized-accept (Expr.literal v t) n = Sized-ok (Expr.literal v t) _ n refl
  Sized-accept (Expr.text t) n = Sized-ok (Expr.text t) _ n refl
  Sized-accept (Expr.sizeof_type m t) n = Sized-ok (Expr.sizeof_type m t) _ n refl
  Sized-accept (Expr.sizeof_bad t) n = Sized-ok (Expr.sizeof_bad t) _ n refl
