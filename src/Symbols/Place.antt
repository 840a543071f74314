-- ===== src/Symbols/Place.antt =====
-- What the methods that insert symbols leave alone: the tree of scopes and the walker's place in it.
use enlightenedc.Prelude.{
  ℕ, ◌≡◌, refl, sym, ap, subst, Bool, Option, none, some, List, length, get_elem?, Option-cases,
  Bool-cases, inl, inr, arith, length-set, ◌==◌, match_option,
}
use enlightenedc.Outcome.{undefined_behaviour}
use enlightenedc.Symbols.Name.{Name, find}
use enlightenedc.Symbols.Scope.{
  Scope, Walker, Symbol, Step, done, thrown, failed, at_current, put_current, tie_current_to,
  set_assoc, locally_contains, scope_get, FuncSymbol, var, func, alias, type_symbol, label,
}
use enlightenedc.Symbols.Insert.{
  InsertVarArgs, InsertFuncArgs, insert_var, insert_implicit, insert_alias, insert_func,
  insert_type, insert_label, insert_at, restore, own, alias_in, reconcile, replace_func, define,
  symbol_name,
}
use enlightenedc.Symbols.Tree.{shape, shapes, Tree, WellFormed, shapes-set, Depth}

module _ {V : Type 0} where
  pub record SamePlace (w w' : Walker V) : Type 0 where
    pub shapes : shapes w'.scopes ≡ shapes w.scopes
    pub size : length w'.scopes ≡ length w.scopes
    pub current : w'.current ≡ w.current
    pub indices : w'.prev_scope_idxs ≡ w.prev_scope_idxs
    pub next : w'.next_scope_idx ≡ w.next_scope_idx
    pub id : w'.next_id ≡ w.next_id

  SamePlace-refl : (w : Walker V) → SamePlace w w
  SamePlace-refl w = record {
    shapes = refl;
    size = refl;
    current = refl;
    indices = refl;
    next = refl;
    id = refl;
  }

  pub WellFormed-SamePlace : {w w' : Walker V} → WellFormed w → SamePlace w w' → WellFormed w'
  WellFormed-SamePlace {w} {w'} ok same = record {
    tree = subst Tree (sym same.shapes) ok.tree;
    current = omega (arith, same.current, same.size, ok.current);
    depth = λ d x. omega (
      arith,
      ap length same.indices,
      ok.depth d (
          subst (λ i. Depth (shapes w.scopes) i d) same.current
            (subst (λ sh. Depth sh w'.current d) same.shapes x)),
    );
    fresh = omega (arith, same.id, ok.fresh, same.size);
  }

  SamePlace-put :
      (w : Walker V) {s : Scope} (s' : Scope) (symbols : List (Symbol V))
      → get_elem? w.scopes w.current ≡ some s
      → shape s' ≡ shape s
      → SamePlace w (put_current (record w { symbols = symbols }) s')
  unfolding put_current
  SamePlace-put w s' symbols h e = record {
    shapes = shapes-set w.scopes w.current s' h e;
    size = length-set w.scopes w.current s';
    current = refl;
    indices = refl;
    next = refl;
    id = refl;
  }

module _ {V A : Type 0} where
  -- However a method ends, the walker's place is the same.
  abbrev pub Stays : Walker V → Step V A → Type 0
  Stays w (done a w') = SamePlace w w'
  Stays w (thrown p w') = SamePlace w w'
  Stays w (failed e) = Unit {0}

  Stays-at_current :
      (w : Walker V) (k : Scope → Step V A)
      → ((s : Scope) → get_elem? w.scopes w.current ≡ some s → Stays w (k s))
      → Stays w (at_current w k)
  unfolding at_current
  Stays-at_current w k h = elim (Option-cases (get_elem? w.scopes w.current)) [
    | inl e ↦ rw e tt
    | inr (s, e) ↦ rw e (h s e)
  ]

module _ {V : Type 0} where
  pub Stays-insert_var : (w : Walker V) (args : InsertVarArgs V) → Stays w (insert_var w args)
  unfolding insert_var own
  Stays-insert_var w args = Stays-at_current w _ (λ s h.
      elim (Option-cases (find s.phys_symbols args.name)) [
        | inl e ↦ rw e (SamePlace-put w _ _ h refl)
        | inr (p, e) ↦ rw e (SamePlace-refl w)
      ])

  pub Stays-insert_type : (w : Walker V) (name : Name) (ty : ℕ) → Stays w (insert_type w name ty)
  unfolding insert_type own
  Stays-insert_type w name ty = Stays-at_current w _ (λ s h.
      elim (Option-cases (find s.type_symbols name)) [
        | inl e ↦ rw e (SamePlace-put w _ _ h refl)
        | inr (p, e) ↦ rw e (SamePlace-refl w)
      ])

  pub Stays-insert_label : (w : Walker V) (name : Name) → Stays w (insert_label w name)
  unfolding insert_label own
  Stays-insert_label w name = Stays-at_current w _ (λ s h.
      elim (Option-cases (find s.label_symbols name)) [
        | inl e ↦ rw e (SamePlace-put w _ _ h refl)
        | inr (p, e) ↦ rw e (SamePlace-refl w)
      ])

  implicit_name :
      (w : Walker V) (o : Option ℕ)
      → Stays {A = ℕ} w
          (match_option o (failed undefined_behaviour) (λ existing. thrown existing w))
  implicit_name w (some p) = SamePlace-refl w
  implicit_name w none = tt

  pub Stays-insert_implicit :
      (w : Walker V) (args : InsertVarArgs V) → Stays w (insert_implicit w args)
  unfolding insert_implicit own
  Stays-insert_implicit w args = Stays-at_current w _ (λ s h.
      elim (Bool-cases (locally_contains s args.name)) [
        | inl e ↦ rw e (implicit_name w (scope_get s args.name))
        | inr e ↦ elim (Bool-cases (w.current == 0)) [
          | inl z ↦ rw (e, z) tt
          | inr z ↦ rw (e, z) (SamePlace-put w _ _ h refl)
        ]
      ])

  pub Stays-insert_alias : (w : Walker V) (aliasee : ℕ) → Stays w (insert_alias w aliasee)
  unfolding insert_alias own alias_in
  Stays-insert_alias w aliasee = elim (Option-cases (get_elem? w.symbols aliasee)) [
    | inl e ↦ rw e tt
    | inr (target, e) ↦ rw e (
        Stays-at_current w _ (λ s h.
          elim (Option-cases (find s.phys_symbols (symbol_name target))) [
            | inl f ↦ rw f (SamePlace-put w _ _ h refl)
            | inr (p, f) ↦ rw f (SamePlace-put w _ _ h refl)
          ]))
  ]

  pub Stays-tie_current_to :
      (w : Walker V) (f : ℕ) (override : Bool) → Stays w (tie_current_to w f override)
  unfolding tie_current_to set_assoc
  Stays-tie_current_to w f override = Stays-at_current w _ (λ s h. elim (Option-cases s.assoc) [
    | inl e ↦ rw e (SamePlace-put w _ _ h refl)
    | inr (g, e) ↦ elim (Bool-cases override) [
      | inl o ↦ rw (e, o) (SamePlace-put w _ _ h refl)
      | inr o ↦ rw (e, o) (SamePlace-put w _ _ h refl)
    ]
  ])

  SamePlace-define :
      (w : Walker V) (p : ℕ) (f : FuncSymbol) (args : InsertFuncArgs)
      → SamePlace w (define w p f args)
  unfolding define
  SamePlace-define w p f args = record {
    shapes = refl;
    size = refl;
    current = refl;
    indices = refl;
    next = refl;
    id = refl;
  }

  Stays-reconcile :
      (w : Walker V) (p : ℕ) (f : FuncSymbol) (args : InsertFuncArgs)
      → Stays w (reconcile w p f args)
  unfolding reconcile
  Stays-reconcile w p f args = ground (arith, SamePlace-refl w, SamePlace-define w p f args)

  Stays-replace_func :
      (w : Walker V) (p : ℕ) (sym : Symbol V) (args : InsertFuncArgs)
      → Stays w (replace_func w p sym args)
  unfolding replace_func
  Stays-replace_func w p (var v) args = SamePlace-refl w
  Stays-replace_func w p (func f) args = Stays-reconcile w p f args
  Stays-replace_func w p (alias n s g a) args = SamePlace-refl w
  Stays-replace_func w p (type_symbol n s g t) args = SamePlace-refl w
  Stays-replace_func w p (label n s g) args = SamePlace-refl w

  pub Stays-insert_func : (w : Walker V) (args : InsertFuncArgs) → Stays w (insert_func w args)
  unfolding insert_func own
  Stays-insert_func w args = Stays-at_current w _ (λ s h.
      elim (Option-cases (find s.phys_symbols args.name)) [
        | inl e ↦ elim (Option-cases args.signature) [
          | inl null ↦ rw (e, null) tt
          | inr (signature, known) ↦ rw (e, known) (SamePlace-put w _ _ h refl)
        ]
        | inr (p, e) ↦ elim (Option-cases (get_elem? w.symbols p)) [
          | inl f ↦ rw (e, f) tt
          | inr (sym, f) ↦ rw (e, f) (Stays-replace_func w p sym args)
        ]
      ])

  -- Putting `current` back.
  back :
      (w : Walker V) (at_scope : ℕ) {w' : Walker V}
      → SamePlace (record w { current = at_scope }) w'
      → SamePlace w (record w' { current = w.current })
  back w at_scope same = record {
    shapes = same.shapes;
    size = same.size;
    current = refl;
    indices = same.indices;
    next = same.next;
    id = same.id;
  }

  Stays-restore :
      (w : Walker V) (at_scope : ℕ) (r : Step V ℕ)
      → Stays (record w { current = at_scope }) r
      → Stays w (restore w.current r)
  unfolding restore
  Stays-restore w at_scope (done p w') same = back w at_scope same
  Stays-restore w at_scope (thrown p w') same = back w at_scope same
  Stays-restore w at_scope (failed e) same = tt

  pub Stays-insert_at :
      (insert_in : Walker V → Step V ℕ) (w : Walker V) (at_scope : ℕ)
      → ((v : Walker V) → Stays v (insert_in v))
      → Stays w (insert_at insert_in w at_scope)
  unfolding insert_at
  Stays-insert_at insert_in w at_scope h =
      Stays-restore w at_scope (insert_in (record w { current = at_scope }))
        (h (record w { current = at_scope }))
