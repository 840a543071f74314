-- ===== src/Symbols/Define.antt =====
-- The pointers of the table under function definitions and all insertions.
use enlightenedc.Prelude.{
  ℕ, ◌≡◌, refl, sym, ◌∙◌, Option, none, some, List, [], ◌∷◌, length, get_elem?, set, Option-cases,
  inl, inr, arith, length-set, true,
}
use enlightenedc.Symbols.Name.{find}
use enlightenedc.Symbols.Scope.{
  Walker, Symbol, FuncSymbol, Step, done, thrown, failed, var, func, alias, type_symbol, label,
}
use enlightenedc.Symbols.Insert.{
  InsertFuncArgs, insert_func, insert_at, restore, reconcile, replace_func, define, set_funcparam,
  set_funcparams,
}
use enlightenedc.Symbols.Shadowing.{Owned}
use enlightenedc.Symbols.Reach.{
  Insertion, variable, implicit_variable, alias_of, function, type_named, label_named, placed,
  insert,
}
use enlightenedc.Symbols.Owned.{
  Owns, Owns-at_current, Owned-own, OwnedBy-weaken, Below-insert, Below-weaken, Owns-insert_var,
  Owns-insert_implicit, Owns-insert_alias, Owns-insert_type, Owns-insert_label,
}

module _ {V : Type 0} where
  length-set_funcparam :
      (symbols : List (Symbol V)) (p : ℕ) → length (set_funcparam symbols p) ≡ length symbols
  unfolding set_funcparam
  length-set_funcparam symbols p = by_symbol (get_elem? symbols p)
    where
      by_symbol :
          (o : Option (Symbol V))
          → length (elim o [
            | some (var v) ↦ set symbols p (var (record v { funcparam = true }))
            | other ↦ symbols
          ])
            ≡ length symbols
      by_symbol (some (var v)) = length-set symbols p (var (record v { funcparam = true }))
      by_symbol (some (func f)) = refl
      by_symbol (some (alias n s g a)) = refl
      by_symbol (some (type_symbol n s g t)) = refl
      by_symbol (some (label n s g)) = refl
      by_symbol none = refl

  length-set_funcparams :
      (ps : List ℕ) (symbols : List (Symbol V))
      → length (set_funcparams symbols ps) ≡ length symbols
  unfolding set_funcparams
  length-set_funcparams [] symbols = refl
  length-set_funcparams (p ∷ ps) symbols =
      length-set_funcparams ps (set_funcparam symbols p) ∙ length-set_funcparam symbols p

  Owned-define :
      (w : Walker V) (p : ℕ) (f : FuncSymbol) (args : InsertFuncArgs)
      → Owned w
      → Owned (define w p f args)
  unfolding define
  Owned-define w p f args o i s h =
      OwnedBy-weaken s
        (omega (
          arith,
          length-set_funcparams args.parameters
              (set w.symbols p (func (record f { has_body = true; parameters = args.parameters }))),
          length-set w.symbols p
              (func (record f { has_body = true; parameters = args.parameters })),
        ))
        (o i s h)

  Owns-reconcile :
      (w : Walker V) (p : ℕ) (f : FuncSymbol) (args : InsertFuncArgs)
      → Owned w
      → Owns (reconcile w p f args)
  unfolding reconcile
  Owns-reconcile w p f args o = ground (arith, o, Owned-define w p f args o)

  Owns-replace_func :
      (w : Walker V) (p : ℕ) (sym : Symbol V) (args : InsertFuncArgs)
      → Owned w
      → Owns (replace_func w p sym args)
  unfolding replace_func
  Owns-replace_func w p (func f) args o = Owns-reconcile w p f args o
  Owns-replace_func w p (var v) args o = o
  Owns-replace_func w p (alias n s g a) args o = o
  Owns-replace_func w p (type_symbol n s g t) args o = o
  Owns-replace_func w p (label n s g) args o = o

  pub Owns-insert_func :
      (w : Walker V) (args : InsertFuncArgs) → Owned w → Owns (insert_func w args)
  unfolding insert_func
  Owns-insert_func w args o = Owns-at_current w _ o (λ s b.
      elim (Option-cases (find s.phys_symbols args.name)) [
        | inl e ↦ elim (Option-cases args.signature) [
          | inl null ↦ rw (e, null) tt
          | inr (signature, known) ↦
              rw (e, known)
                (Owned-own w _ _ o (record {
                  phys = Below-insert (length w.symbols) s.phys_symbols args.name b.phys;
                  implicits = Below-weaken s.implicits (omega arith) b.implicits;
                }))
        ]
        | inr (p, e) ↦ elim (Option-cases (get_elem? w.symbols p)) [
          | inl f ↦ rw (e, f) tt
          | inr (sym, f) ↦ rw (e, f) (Owns-replace_func w p sym args o)
        ]
      ])

  Owns-restore : (saved : ℕ) (r : Step V ℕ) → Owns r → Owns (restore saved r)
  unfolding restore
  Owns-restore saved (done p w) o = o
  Owns-restore saved (thrown p w) o = o
  Owns-restore saved (failed e) o = tt

  Owns-insert_at :
      (insert_in : Walker V → Step V ℕ) (w : Walker V) (at_scope : ℕ)
      → Owns (insert_in (record w { current = at_scope }))
      → Owns (insert_at insert_in w at_scope)
  unfolding insert_at
  Owns-insert_at insert_in w at_scope h =
      Owns-restore w.current (insert_in (record w { current = at_scope })) h

  pub Owns-insert : (i : Insertion V) (w : Walker V) → Owned w → Owns (insert i w)
  unfolding insert
  Owns-insert (variable args) w o = Owns-insert_var w args o
  Owns-insert (implicit_variable args) w o = Owns-insert_implicit w args o
  Owns-insert (alias_of p) w o = Owns-insert_alias w p o
  Owns-insert (function args) w o = Owns-insert_func w args o
  Owns-insert (type_named name ty) w o = Owns-insert_type w name ty o
  Owns-insert (label_named name) w o = Owns-insert_label w name o
  Owns-insert (placed at_scope i) w o =
      Owns-insert_at (insert i) w at_scope (Owns-insert i (record w { current = at_scope }) o)
