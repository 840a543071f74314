-- ===== src/Mir/Preserve.antt =====
-- Folding keeps what an expression evaluates to.
use enlightenedc.Prelude.{ℕ, ◌≡◌, refl, sym, ◌∙◌, Bool, true, false, ◌&&◌, if◌then◌else◌, ap}
use enlightenedc.Token.Kinds.{BinaryOp}
use enlightenedc.Outcome.{Outcome, ok, ◌>>=◌}
use enlightenedc.Float.{Floats}
use enlightenedc.Value.{Value, to_bool}
use enlightenedc.Mir.{Expr, EffType, UnaryOp}
use enlightenedc.Mir.Eval.{eval}
use enlightenedc.Mir.Fold.{fold_with, eval_and_expr, accept, fold_operand}
use enlightenedc.Mir.Typed.{Typed, keeps_type, unnarrowed, both}
use enlightenedc.Mir.Yields.{HasEff-eval}
use enlightenedc.Mir.Keeps.{
  Keeps, Kept, Keeps-ok, Keeps->>=, Keeps-literal_of, Keeps-if, Keeps-operand, Keeps-runtime,
  Keeps-evaluated, Sized, Sized-accept,
}

module _ ⦃F : Floats⦄ where
  Kept-binary :
      (op : BinaryOp) (l r : Expr F) (t : EffType)
      → Kept l
      → Kept r
      → Keeps (accept (Expr.binary op l r t)) (eval (Expr.binary op l r t))
  unfolding eval accept
  Kept-binary op l r t hl hr = Keeps->>= (fold_with l (eval_and_expr l) (accept l)) _ _ λ l' kl.
      Keeps->>= (fold_with r (eval_and_expr r) (accept r)) _ _
        λ r' kr. Keeps-ok _ _ (rw (Keeps-operand l hl l' kl, Keeps-operand r hr r' kr))

  -- The visit of a node with one operand.
  Kept-under :
      (f : Expr F → Expr F) (e : Expr F)
      → ((e₁ e₂ : Expr F) → eval e₁ ≡ eval e₂ → eval (f e₁) ≡ eval (f e₂))
      → Kept e
      → Keeps (fold_with e (eval_and_expr e) (accept e) >>= λ e'. ok (f e')) (eval (f e))
  Kept-under f e c h =
      Keeps->>= (fold_with e (eval_and_expr e) (accept e)) _ _
        λ e' k. Keeps-ok _ _ (c e' e (Keeps-operand e h e' k))

  Kept-cond :
      (c a b : Expr F) (t : EffType)
      → Kept c
      → Kept a
      → Kept b
      → Keeps (accept (Expr.cond c a b t)) (eval (Expr.cond c a b t))
  unfolding eval accept
  Kept-cond c a b t hc ha hb = Keeps->>= (fold_with c (eval_and_expr c) (accept c)) _ _ λ c' kc.
      Keeps->>= (fold_with a (eval_and_expr a) (accept a)) _ _ λ a' ka.
        Keeps->>= (fold_with b (eval_and_expr b) (accept b)) _ _ λ b' kb.
          Keeps-ok _ _
            (rw (Keeps-operand c hc c' kc, Keeps-operand a ha a' ka, Keeps-operand b hb b' kb))

  Keeps-choose :
      (b : Bool) (m n : Outcome (Expr F)) (o p : Outcome (Value F))
      → Keeps m o
      → Keeps n p
      → Keeps (if b then m else n) (if b then o else p)
  Keeps-choose true m n o p h k = h
  Keeps-choose false m n o p h k = k

  -- The branch that a constant condition takes.
  Kept-branch :
      (c a b : Expr F) (t : EffType)
      → Kept a
      → Kept b
      → Keeps (eval_and_expr (Expr.cond c a b t)) (eval (Expr.cond c a b t))
  unfolding eval eval_and_expr
  Kept-branch c a b t (ha, ka) (hb, kb) = Keeps->>= (eval c) _ _ λ v hv e' k.
      Keeps-choose (to_bool v) _ _ (eval a) (eval b) (Keeps-if _ _ _ _ ha ka)
        (Keeps-if _ _ _ _ hb kb) e' k
      ∙ sym (ap (λ o. o >>= λ x. if to_bool x then eval a else eval b) hv)

  Kept-sizeof :
      (e : Expr F) (n : ℕ) (t : EffType)
      → Keeps (accept (Expr.sizeof_expr e n t)) (eval (Expr.sizeof_expr e n t))
  unfolding eval accept Sized
  Kept-sizeof e n t = Keeps->>= (accept e) _ _ λ e' k. Keeps-ok _ _ (Sized-accept e n e' k)

  kept : {e : Expr F} {t : EffType} → Typed t e → unnarrowed e ≡ true → Kept e
  unfolding eval_and_expr accept eval unnarrowed
  kept (Typed.binary {op} {l} {r} types g k hl hr) u =
      let (ul, ur) = both (unnarrowed l) (unnarrowed r) u in
      (
        Keeps-literal_of _ _ (λ v. HasEff-eval (Typed.binary types g k hl hr) u),
        Kept-binary op l r _ (kept hl ul) (kept hr ur),
      )
  kept (Typed.logical {op} {l} {r} g hl hr) u =
      let (ul, ur) = both (unnarrowed l) (unnarrowed r) u in
      (
        Keeps-literal_of _ _ (λ v. HasEff-eval (Typed.logical g hl hr) u),
        Kept-binary op l r _ (kept hl ul) (kept hr ur),
      )
  kept (Typed.sign {op} {e} {a} g he) u =
      let (p, ue) = both (keeps_type op (EffType.prim a)) (unnarrowed e) u in
      (
        Keeps-literal_of _ _ (λ v. HasEff-eval (Typed.sign g he) u),
        Kept-under (λ x. Expr.unary op x (EffType.prim a)) e (λ x y h. rw h) (kept he ue),
      )
  kept (Typed.negation {e} {a} he) u =
      let (p, ue) = both (keeps_type UnaryOp.not (EffType.prim a)) (unnarrowed e) u in
      (
        Keeps-literal_of _ _ (λ v. HasEff-eval (Typed.negation he) u),
        Kept-under (λ x. Expr.unary UnaryOp.not x (EffType.prim a)) e (λ x y h. rw h) (kept he ue),
      )
  kept (Typed.place {op} {e} t g he) u =
      let (p, ue) = both (keeps_type op t) (unnarrowed e) u in
      (
        Keeps-literal_of _ _ (λ v. HasEff-eval (Typed.place t g he) u),
        Kept-under (λ x. Expr.unary op x t) e (λ x y h. rw h) (kept he ue),
      )
  kept (Typed.cast {e} t he) u = (
    Keeps-literal_of _ _ (λ v. HasEff-eval (Typed.cast t he) u),
    Kept-under (λ x. Expr.cast t x t) e (λ x y h. rw h) (kept he u),
  )
  kept (Typed.cond {c} {a} {b} {t = t} hc ha hb) u =
      let (uc, ub) = both (unnarrowed c) (unnarrowed a && unnarrowed b) u in
      let (ua, ub) = both (unnarrowed a) (unnarrowed b) ub in
      (
        Kept-branch c a b t (kept ha ua) (kept hb ub),
        Kept-cond c a b t (kept hc uc) (kept ha ua) (kept hb ub),
      )
  kept (Typed.ident i hi) u =
      (Keeps-literal_of _ _ (λ v. HasEff-eval (Typed.ident i hi) u), Keeps-ok _ _ refl)
  kept (Typed.literal hv) u = (Keeps-ok _ _ refl, Keeps-ok _ _ refl)
  kept (Typed.sizeof_expr e n g) u =
      (Keeps-literal_of _ _ (λ v. HasEff-eval (Typed.sizeof_expr e n g) u), Kept-sizeof e n _)
  kept (Typed.sizeof_type n g) u =
      (Keeps-literal_of _ _ (λ v. HasEff-eval (Typed.sizeof_type n g) u), Keeps-ok _ _ refl)
  kept (Typed.runtime e g) u = (Keeps-evaluated e g, Keeps-runtime e g)

  -- Folding an expression with the types of the validator, in which `+`, `-` and `~` are applied to no
  -- integer narrower than I32 and to no boolean, and `!` to booleans only, yields one that evaluates
  -- to the same value, or fails alike.
  pub eval-fold_operand :
      {e e' : Expr F} {t : EffType}
      → Typed t e
      → unnarrowed e ≡ true
      → fold_operand e ≡ ok e'
      → eval e' ≡ eval e
  unfolding fold_operand
  eval-fold_operand {e} {e'} h u = Keeps-operand e (kept h u) e'
