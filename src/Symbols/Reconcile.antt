-- ===== src/Symbols/Reconcile.antt =====
-- What `insert_func` makes of a name that a function has already.
use enlightenedc.Prelude.{
  ℕ, ◌≡◌, refl, ap, ◌∙◌, sym, Bool, true, false, not, ◌&&◌, Option, none, some, List, [], ◌∷◌,
  get_elem?, set, Bool-cases, inl, inr, arith, if◌then◌else◌, get_elem?-set_self, get_elem?-set_ne,
  ℕ-cases, ◌⊎◌,
}
use enlightenedc.Symbols.Name.{find}
use enlightenedc.Symbols.Scope.{
  Scope, Walker, Symbol, FuncSymbol, FunctionType, done, thrown, at_current, var, func, alias,
  type_symbol, label,
}
use enlightenedc.Symbols.Insert.{
  InsertFuncArgs, insert_func, reconcile, replace_func, define, set_funcparam, set_funcparams,
  compatible_from, same_signature_as,
}
use enlightenedc.Symbols.Tree.{get_elem?-bound}

-- The symbol of a redeclared function: a body stays or comes, and with it its parameters.
unfoldable pub merged : FuncSymbol → InsertFuncArgs → FuncSymbol
merged f args =
    if args.has_body then record f { has_body = true; parameters = args.parameters } else f

both : (c d : Bool) → (c && not d) ≡ true → (c ≡ true) × (d ≡ false)
both c d h = (ground (arith, h), ground (arith, h))

module _ {V : Type 0} where
  set_funcparam-func :
      (symbols : List (Symbol V)) (p q : ℕ) {f : FuncSymbol}
      → get_elem? symbols q ≡ some (func f)
      → get_elem? (set_funcparam symbols p) q ≡ some (func f)
  unfolding set_funcparam
  set_funcparam-func symbols p q {f} h = by_symbol (get_elem? symbols p) refl
    where
      by_symbol :
          (o : Option (Symbol V))
          → get_elem? symbols p ≡ o
          → get_elem?
              (elim o [
                | some (var v) ↦ set symbols p (var (record v { funcparam = true }))
                | other ↦ symbols
              ])
              q
            ≡ some (func f)
      by_symbol (some (var v)) e = elim (ℕ-cases p q) [
        | inl z ↦ let bad = sym e ∙ ap (λ k. get_elem? symbols k) z ∙ h in cc
        | inr n ↦ get_elem?-set_ne symbols (var (record v { funcparam = true })) n ∙ h
      ]
      by_symbol (some (func g)) e = h
      by_symbol (some (alias n s g a)) e = h
      by_symbol (some (type_symbol n s g t)) e = h
      by_symbol (some (label n s g)) e = h
      by_symbol none e = h

  set_funcparams-func :
      (ps : List ℕ) (symbols : List (Symbol V)) (q : ℕ) {f : FuncSymbol}
      → get_elem? symbols q ≡ some (func f)
      → get_elem? (set_funcparams symbols ps) q ≡ some (func f)
  unfolding set_funcparams
  set_funcparams-func [] symbols q h = h
  set_funcparams-func (p ∷ ps) symbols q h =
      set_funcparams-func ps (set_funcparam symbols p) q (set_funcparam-func symbols p q h)

  insert_func-reconcile :
      (w : Walker V) (args : InsertFuncArgs) {s : Scope} {p : ℕ} {f : FuncSymbol}
      → get_elem? w.scopes w.current ≡ some s
      → find s.phys_symbols args.name ≡ some p
      → get_elem? w.symbols p ≡ some (func f)
      → insert_func w args ≡ reconcile w p f args
  unfolding insert_func at_current replace_func
  insert_func-reconcile w args h e k = rw (h, e, k) refl

  module _ (w : Walker V) (args : InsertFuncArgs) (p : ℕ) (f : FuncSymbol)
      {old_type new_type : FunctionType} (a : f.signature ≡ some old_type)
      (b : args.signature ≡ some new_type) where
    compatible-same :
        compatible_from old_type f.linkage new_type args.linkage ≡ true
        → same_signature_as old_type new_type ≡ true
    unfolding compatible_from
    compatible-same h = ground (arith, h)

    reconcile_thrown :
        (compatible_from old_type f.linkage new_type args.linkage
            && not (f.has_body && args.has_body))
          ≡ false
        → reconcile w p f args ≡ thrown p w
    unfolding reconcile
    reconcile_thrown h = rw (a, b) (ground (arith, h))

    reconcile_defined :
        compatible_from old_type f.linkage new_type args.linkage ≡ true
        → f.has_body ≡ false
        → args.has_body ≡ true
        → reconcile w p f args ≡ done p (define w p f args)
    unfolding reconcile
    reconcile_defined c g h = rw (a, b) (ground (arith, c, g, h, compatible-same c))

    reconcile_declared :
        compatible_from old_type f.linkage new_type args.linkage ≡ true
        → args.has_body ≡ false
        → reconcile w p f args ≡ done p w
    unfolding reconcile
    reconcile_declared c h = rw (a, b) (ground (arith, c, h, compatible-same c))

  define_there :
      (w : Walker V) (args : InsertFuncArgs) (p : ℕ) (f : FuncSymbol)
      → get_elem? w.symbols p ≡ some (func f)
      → get_elem? (define w p f args).symbols p
        ≡ some (func (record f { has_body = true; parameters = args.parameters }))
  unfolding define
  define_there w args p f k =
      set_funcparams-func args.parameters
        (set w.symbols p (func (record f { has_body = true; parameters = args.parameters }))) p
        (get_elem?-set_self w.symbols p
          (func (record f { has_body = true; parameters = args.parameters }))
          (get_elem?-bound w.symbols p k))

  -- A function is declared anew, under the name of a function of the current scope with both types
  -- given, exactly if signature and linkages are compatible and at most one of the two
  -- declarations has a body. Then the old symbol is returned, with the new body and parameters if
  -- there are new ones; otherwise the old symbol is thrown and nothing changes.
  pub insert_func-merged :
      (w : Walker V) (args : InsertFuncArgs) (s : Scope) (p : ℕ) (f : FuncSymbol)
      (old_type new_type : FunctionType)
      → get_elem? w.scopes w.current ≡ some s
      → find s.phys_symbols args.name ≡ some p
      → get_elem? w.symbols p ≡ some (func f)
      → f.signature ≡ some old_type
      → args.signature ≡ some new_type
      → ((compatible_from old_type f.linkage new_type args.linkage
              && not (f.has_body && args.has_body))
            ≡ false
          → insert_func w args ≡ thrown p w)
        × ((compatible_from old_type f.linkage new_type args.linkage
                && not (f.has_body && args.has_body))
              ≡ true
            → (w' : Walker V) × (insert_func w args ≡ done p w')
              × (get_elem? w'.symbols p ≡ some (func (merged f args)))
              × (w'.scopes ≡ w.scopes)
              × (w'.current ≡ w.current))
  unfolding merged define
  insert_func-merged w args s p f old_type new_type h e k a b = (
    λ no. insert_func-reconcile w args h e k ∙ reconcile_thrown w args p f a b no,
    λ yes_. accepted yes_ (Bool-cases args.has_body),
  )
    where
      accepted :
          (compatible_from old_type f.linkage new_type args.linkage
              && not (f.has_body && args.has_body))
            ≡ true
          → (args.has_body ≡ true) ⊎ (args.has_body ≡ false)
          → (w' : Walker V) × (insert_func w args ≡ done p w')
            × (get_elem? w'.symbols p ≡ some (func (merged f args)))
            × (w'.scopes ≡ w.scopes)
            × (w'.current ≡ w.current)
      accepted yes_ (inl t) =
          let (c, d) = both _ _ yes_ in
          (
            define w p f args,
            insert_func-reconcile w args h e k
                ∙ reconcile_defined w args p f a b c (ground (arith, d, t)) t,
            rw t (define_there w args p f k),
            refl,
            refl,
          )
      accepted yes_ (inr t) =
          let (c, d) = both _ _ yes_ in
          (
            w,
            insert_func-reconcile w args h e k ∙ reconcile_declared w args p f a b c t,
            rw t k,
            refl,
            refl,
          )
