-- ===== src/Mir/Yields.antt =====
-- A typed expression evaluates to a value of its type.
use enlightenedc.Primitive.Enumerate.{pr_eq_sound}
use enlightenedc.Prelude.{
  ℕ, ◌^◌, ◌≡◌, refl, sym, ap, subst, ◌∙◌, Bool, true, false, not, ◌&&◌, Option, none, some, arith,
  ltb, if◌then◌else◌,
}
use enlightenedc.Token.Kinds.{BinaryOp, UnaryOp, PrimType}
use enlightenedc.Primitive.{PrimExprTypes, pr_check_binary_op}
use enlightenedc.Outcome.{Outcome, ok, fail, ◌>>=◌, >>=-eq-ok, ok_eq}
use enlightenedc.Float.{Floats}
use enlightenedc.Value.{Value, ptr_value, bits, to_bool}
use enlightenedc.Value.Cast.{cast_to_pointer}
use enlightenedc.Value.Unary.{not_op}
use enlightenedc.Value.Binary.{binary_op}
use enlightenedc.Value.HasType.{HasType, HasType-primtype, primtype-HasType, primtype-pr_cast}
use enlightenedc.Value.InRange.{
  in_range-pr_cast, in_range-neg_op, in_range-tilde_op, in_range-pos_op,
}
use enlightenedc.Value.Promoted.{int_promote, primtype-neg_op, primtype-pos_op, primtype-tilde_op}
use enlightenedc.Value.Ranges.{in_range-binary_op}
use enlightenedc.Value.Typing.{primtype-binary_op}
use enlightenedc.Mir.{Expr, Ident, EffType}
use enlightenedc.Mir.Eval.{
  eval, eval_binary, eval_unary, eval_cast, eval_value, eval_ident, eval_sizeof,
}
use enlightenedc.Mir.Typed.{
  Typed, HasEff, is_logical, is_sign, is_place, is_runtime, keeps_type, unnarrowed, both,
}

module _ ⦃F : Floats⦄ where
  eval_runtime : (e : Expr F) {v : Value F} → is_runtime e ≡ true → eval e ≡ ok v → ⊥
  unfolding eval
  eval_runtime (Expr.assign op l r t) h k = cc
  eval_runtime (Expr.binary op l r t) h k = cc
  eval_runtime _ h k = cc

  eval_binary_plain :
      (op : BinaryOp) (l r : Outcome (Value F))
      → is_logical op ≡ false
      → eval_binary op l r ≡ (l >>= λ a. r >>= λ b. binary_op op a b)
  unfolding eval_binary
  eval_binary_plain BinaryOp.oror l r h = cc
  eval_binary_plain BinaryOp.andand l r h = cc
  eval_binary_plain _ l r h = refl

  HasEff-binary :
      (op : BinaryOp) (l r : Outcome (Value F)) {a b : PrimType} (types : PrimExprTypes)
      {v : Value F}
      → is_logical op ≡ false
      → pr_check_binary_op op a b ≡ some types
      → ((w : Value F) → l ≡ ok w → HasEff (EffType.prim a) w)
      → ((w : Value F) → r ≡ ok w → HasEff (EffType.prim b) w)
      → eval_binary op l r ≡ ok v
      → HasEff (EffType.prim types.expr_type) v
  HasEff-binary op l r types {v} h k hl hr e =
      let (x, ex, e₁) = >>=-eq-ok l _ (sym (eval_binary_plain op l r h) ∙ e) in
      let (y, ey, e₂) = >>=-eq-ok r _ e₁ in
      let (ts, ht, hv) =
        primtype-binary_op op x y (primtype-HasType (hl x ex).0) (primtype-HasType (hr y ey).0)
          e₂ in
      (HasType-primtype v cc, in_range-binary_op op x y e₂)

  ok_bool :
      (r : Outcome (Value F)) {v : Value F}
      → (r >>= λ x. ok (Value.bool (to_bool x))) ≡ ok v
      → (b : Bool) × (v ≡ Value.bool b)
  ok_bool (ok x) h = (to_bool x, cc)
  ok_bool (fail e) h = cc

  eval_or :
      (b : Bool) (r : Outcome (Value F)) {v : Value F}
      → (if b then ok (Value.bool true) else (r >>= λ x. ok (Value.bool (to_bool x)))) ≡ ok v
      → (b : Bool) × (v ≡ Value.bool b)
  eval_or true r h = (true, cc)
  eval_or false r h = ok_bool r h

  eval_and :
      (b : Bool) (r : Outcome (Value F)) {v : Value F}
      → (if b then (r >>= λ x. ok (Value.bool (to_bool x))) else ok (Value.bool false)) ≡ ok v
      → (b : Bool) × (v ≡ Value.bool b)
  eval_and true r h = ok_bool r h
  eval_and false r h = (false, cc)

  HasEff-cast_to_pointer :
      (complete : Bool) (stride : ℕ) (v : Value F) {w : Value F}
      → (if complete then cast_to_pointer stride v else cast_to_pointer 0 v) ≡ ok w
      → (a : ℕ) × (w ≡ Value.ptr (ptr_value a (if complete then stride else 0)))
  unfolding cast_to_pointer
  HasEff-cast_to_pointer true stride v h = (bits v, ground arith)
  HasEff-cast_to_pointer false stride v h = (bits v, ground arith)

  eval_logical :
      (op : BinaryOp) (l r : Outcome (Value F)) {v : Value F}
      → is_logical op ≡ true
      → eval_binary op l r ≡ ok v
      → (b : Bool) × (v ≡ Value.bool b)
  unfolding eval_binary
  eval_logical BinaryOp.oror l r h e = let (x, hx, k) = >>=-eq-ok l _ e in eval_or (to_bool x) r k
  eval_logical BinaryOp.andand l r h e =
      let (x, hx, k) = >>=-eq-ok l _ e in eval_and (to_bool x) r k
  eval_logical _ l r h e = cc

  keeps_type-sign :
      (op : UnaryOp) (a : PrimType)
      → is_sign op ≡ true
      → keeps_type op (EffType.prim a) ≡ true
      → int_promote a ≡ a
  keeps_type-sign UnaryOp.pos a s k = pr_eq_sound (int_promote a) a k
  keeps_type-sign UnaryOp.neg a s k = pr_eq_sound (int_promote a) a k
  keeps_type-sign UnaryOp.tilde a s k = pr_eq_sound (int_promote a) a k
  keeps_type-sign _ a s k = cc

  HasEff-sign :
      (op : UnaryOp) {a : PrimType} {v w : Value F}
      → is_sign op ≡ true
      → int_promote a ≡ a
      → HasEff (EffType.prim a) v
      → eval_unary op v ≡ ok w
      → HasEff (EffType.prim a) w
  unfolding eval_unary
  HasEff-sign UnaryOp.pos {w = w} s p (t, g) h =
      (HasType-primtype w (primtype-pos_op t h ∙ ap some p), in_range-pos_op _ g h)
  HasEff-sign UnaryOp.neg {w = w} s p (t, g) h =
      (HasType-primtype w (primtype-neg_op t h ∙ ap some p), in_range-neg_op _ g h)
  HasEff-sign UnaryOp.tilde {w = w} s p (t, g) h =
      (HasType-primtype w (primtype-tilde_op t h ∙ ap some p), in_range-tilde_op _ g h)
  HasEff-sign _ s p t h = cc

  pub HasEff-cast : (t : EffType) (v : Value F) {w : Value F} → eval_cast t v ≡ ok w → HasEff t w
  unfolding eval_cast
  HasEff-cast (EffType.prim t) v {w} h =
      (HasType-primtype w (primtype-pr_cast t v h), in_range-pr_cast t v h)
  HasEff-cast (EffType.pointer complete stride) v h = HasEff-cast_to_pointer complete stride v h
  HasEff-cast EffType.other v h = cc

  HasEff-bool : (b : Bool) {v : Value F} → v ≡ Value.bool b → HasEff (EffType.prim PrimType.bool) v
  HasEff-bool b h = subst (HasEff (EffType.prim PrimType.bool)) (sym h) (HasType.bool b, refl)

  HasEff-not :
      (v : Value F) {w : Value F}
      → eval_unary UnaryOp.not v ≡ ok w
      → HasEff (EffType.prim PrimType.bool) w
  unfolding eval_unary not_op
  HasEff-not v h = HasEff-bool (not (to_bool v)) (sym (ok_eq h))

  -- The operators on places fail, whatever their operand.
  eval_place :
      (op : UnaryOp) (v : Value F) {w : Value F} → is_place op ≡ true → eval_unary op v ≡ ok w → ⊥
  unfolding eval_unary
  eval_place UnaryOp.pos v p h = cc
  eval_place UnaryOp.neg v p h = cc
  eval_place UnaryOp.tilde v p h = cc
  eval_place UnaryOp.not v p h = cc
  eval_place _ v p h = cc

  HasEff-branch :
      (t : EffType) (b : Bool) (m o : Outcome (Value F)) {v : Value F}
      → ((w : Value F) → m ≡ ok w → HasEff t w)
      → ((w : Value F) → o ≡ ok w → HasEff t w)
      → (if b then m else o) ≡ ok v
      → HasEff t v
  HasEff-branch t true m o h k e = h _ e
  HasEff-branch t false m o h k e = k _ e

  HasEff-ident :
      (i : Ident F) (t : EffType) (o : Option (Value F)) (b : Bool) {v : Value F}
      → ((w : Value F) → o ≡ some w → HasEff t w)
      → eval_value b o ≡ ok v
      → HasEff t v
  unfolding eval_value
  HasEff-ident i t none b h k = cc
  HasEff-ident i t (some w) true h k = subst (HasEff t) (ok_eq k) (h w refl)
  HasEff-ident i t (some w) false h k = cc

  HasEff-sizeof :
      (e : Expr F) (n : ℕ) {v : Value F}
      → ltb n (2 ^ 64) ≡ true
      → eval_sizeof e n ≡ ok v
      → HasEff (EffType.prim PrimType.u64) v
  unfolding eval_sizeof
  HasEff-sizeof (Expr.ident i t) n h k =
      subst (HasEff (EffType.prim PrimType.u64)) (ok_eq k) (HasType.u64 n, h)
  HasEff-sizeof _ n h k = cc

  -- An expression with the types of the validator, in which `+`, `-` and `~` are applied to no integer
  -- narrower than I32 and to no boolean, and `!` to booleans only, evaluates, if it does, to a value
  -- of its type, within what the type can hold.
  pub HasEff-eval :
      {e : Expr F} {t : EffType} {v : Value F}
      → Typed t e
      → unnarrowed e ≡ true
      → eval e ≡ ok v
      → HasEff t v
  unfolding eval eval_ident unnarrowed
  HasEff-eval (Typed.binary {op} {l} {r} types g k hl hr) u h =
      let (ul, ur) = both (unnarrowed l) (unnarrowed r) u in
      HasEff-binary op (eval l) (eval r) types g k (λ w. HasEff-eval hl ul) (λ w. HasEff-eval hr ur)
        h
  HasEff-eval (Typed.logical {op} {l} {r} g hl hr) u h =
      let (b, hb) = eval_logical op (eval l) (eval r) g h in HasEff-bool b hb
  HasEff-eval (Typed.sign {op} {e} {a} g he) u h =
      let (p, ue) = both (keeps_type op (EffType.prim a)) (unnarrowed e) u in
      let (v, hv, k) = >>=-eq-ok (eval e) _ h in
      HasEff-sign op g (keeps_type-sign op a g p) (HasEff-eval he ue hv) k
  HasEff-eval {v = w} (Typed.negation {e} {a} he) u h =
      let (p, ue) = both (keeps_type UnaryOp.not (EffType.prim a)) (unnarrowed e) u in
      let (v, hv, k) = >>=-eq-ok (eval e) _ h in
      subst (λ x. HasEff (EffType.prim x) w) (pr_eq_sound PrimType.bool a p) (HasEff-not v k)
  HasEff-eval (Typed.place {op} {e} t g he) u h =
      let (v, hv, k) = >>=-eq-ok (eval e) _ h in absurd (eval_place op v g k)
  HasEff-eval (Typed.cast {e} t he) u h =
      let (v, hv, k) = >>=-eq-ok (eval e) _ h in HasEff-cast t v k
  HasEff-eval (Typed.cond {c} {a} {b} hc ha hb) u h =
      let (v, hv, k) = >>=-eq-ok (eval c) _ h in
      let (uc, ub) = both (unnarrowed c) (unnarrowed a && unnarrowed b) u in
      let (ua, ub) = both (unnarrowed a) (unnarrowed b) ub in
      HasEff-branch _ (to_bool v) (eval a) (eval b) (λ w. HasEff-eval ha ua)
        (λ w. HasEff-eval hb ub) k
  HasEff-eval (Typed.ident i {t} hi) u h = HasEff-ident i t i.value _ hi h
  HasEff-eval (Typed.literal {t = t} hv) u h = subst (HasEff t) (ok_eq h) hv
  HasEff-eval (Typed.sizeof_expr e n g) u h = HasEff-sizeof e n g h
  HasEff-eval (Typed.sizeof_type n g) u h =
      subst (HasEff (EffType.prim PrimType.u64)) (ok_eq h) (HasType.u64 n, g)
  HasEff-eval (Typed.runtime e g) u h = absurd (eval_runtime e g h)
