-- ===== src/Symbols/Table.antt =====
-- What holds of every symbol table that a walker builds.
use enlightenedc.Prelude.{
  ℕ, zero, suc, ◌≡◌, sym, subst, false, Option, none, some, List, [], ◌∷◌, ◌++◌, length, get_elem?,
  set, Option-cases, Bool-cases, inl, inr, ◌==◌, ltb, some_eq,
}
use enlightenedc.Outcome.{ok}
use enlightenedc.Symbols.Name.{Name}
use enlightenedc.Symbols.Scope.{Scope, Walker, put_current, new_scope, new_walker}
use enlightenedc.Symbols.Walk.{
  push_scope, enter_scope, pop_scope, reset, add_scope, ascend, descend,
}
use enlightenedc.Symbols.Lookup.{lookup_var, lookup_func, lookup_type, lookup_label}
use enlightenedc.Symbols.Grow.{get_elem?-set}
use enlightenedc.Symbols.Tree.{get_elem?-snoc}
use enlightenedc.Symbols.Resolve.{
  Encloses, Encloses-exists, visible_var, visible_func, visible_type, visible_label,
}
use enlightenedc.Symbols.Shadowing.{
  OwnedBy, Owned, lookup_var-visible_var, lookup_func-visible_func, lookup_type-visible_type,
  lookup_label-visible_label,
}
use enlightenedc.Symbols.Reach.{
  Reachable, start, pushed, descended, popped, rewound, tied, inserted, refused,
  Reachable-WellFormed,
}
use enlightenedc.Symbols.Owned.{Owns, Owns-at_current, OwnedBy-new_scope, Owns-tie_current_to}
use enlightenedc.Symbols.Define.{Owns-insert}

OwnedBy-alone :
    (i : ℕ) (s : Scope) → get_elem? (new_scope none none 0 none ∷ []) i ≡ some s → OwnedBy 0 s
OwnedBy-alone zero s h = subst (OwnedBy 0) (some_eq h) (OwnedBy-new_scope _ _ _ _ _)
OwnedBy-alone (suc i) s h = cc

module _ {V : Type 0} where
  Owned-add_scope :
      (w : Walker V) (s : Scope) (assoc : Option ℕ)
      → Owned w
      → OwnedBy (length w.symbols) s
      → Owned (add_scope w s assoc)
  unfolding add_scope put_current
  Owned-add_scope w s assoc o b i t h =
      elim (get_elem?-snoc
        (set w.scopes w.current (record s { nested = s.nested ++ (length w.scopes ∷ []) })) _ i h) [
          | inl e ↦ elim (get_elem?-set w.scopes w.current i _ e) [
            | inl (z, f) ↦
                subst (OwnedBy (length w.symbols)) f
                  (record { phys = b.phys; implicits = b.implicits })
            | inr (n, p) ↦ o i t p
          ]
          | inr (z, f) ↦ subst (OwnedBy (length w.symbols)) f (OwnedBy-new_scope _ _ _ _ _)
        ]

  Owns-descend : (w : Walker V) → Owned w → (j : Option ℕ) → Owns (descend w j)
  unfolding descend
  Owns-descend w o none = tt
  Owns-descend w o (some j) = o

  Owns-enter_scope : (w : Walker V) → Owned w → Owns (enter_scope w)
  unfolding enter_scope
  Owns-enter_scope w o = Owns-at_current w _ o (λ s b.
      elim (Bool-cases (ltb w.next_scope_idx (length s.nested))) [
        | inl e ↦ rw e (Owns-descend w o (get_elem? s.nested w.next_scope_idx))
        | inr e ↦ rw e tt
      ])

  Owns-push_scope : (w : Walker V) (assoc : Option ℕ) → Owned w → Owns (push_scope w assoc)
  unfolding push_scope
  Owns-push_scope w assoc o =
      Owns-at_current w _ o
        (λ s b. Owns-enter_scope (add_scope w s assoc) (Owned-add_scope w s assoc o b))

  Owns-ascend : (w : Walker V) (outer : ℕ) (idxs : List ℕ) → Owned w → Owns (ascend w outer idxs)
  unfolding ascend
  Owns-ascend w outer [] o = tt
  Owns-ascend w outer (idx ∷ idxs) o = o

  Owns-pop_scope : (w : Walker V) → Owned w → Owns (pop_scope w)
  unfolding pop_scope
  Owns-pop_scope w o = elim (Bool-cases (w.current == 0)) [
    | inl e ↦ rw e o
    | inr e ↦ rw e (
        Owns-at_current w _ o (λ s b. elim (Option-cases s.outer) [
          | inl f ↦ rw f tt
          | inr (outer, f) ↦ rw f (Owns-ascend w outer w.prev_scope_idxs o)
        ]))
  ]

  Owned-start : (w : Walker V) → w ≡ new_walker → Owned w
  unfolding new_walker
  Owned-start w e = subst Owned (sym e) (λ i s h. OwnedBy-alone i s h)

  Owned-reset : (w : Walker V) → Owned w → Owned (reset w)
  unfolding reset
  Owned-reset w o = o

  pub Reachable-Owned : (w : Walker V) → Reachable w → Owned w
  Reachable-Owned w (start e) = Owned-start w e
  Reachable-Owned w (pushed {w = v} assoc r h) =
      subst Owns h (Owns-push_scope v assoc (Reachable-Owned v r))
  Reachable-Owned w (descended {w = v} r h) =
      subst Owns h (Owns-enter_scope v (Reachable-Owned v r))
  Reachable-Owned w (popped {w = v} r h) = subst Owns h (Owns-pop_scope v (Reachable-Owned v r))
  Reachable-Owned w (rewound {w = v} r h) =
      subst Owned (sym h) (Owned-reset v (Reachable-Owned v r))
  Reachable-Owned w (tied {w = v} f override r h) =
      subst Owns h (Owns-tie_current_to v f override (Reachable-Owned v r))
  Reachable-Owned w (inserted {w = v} i r h) = subst Owns h (Owns-insert i v (Reachable-Owned v r))
  Reachable-Owned w (refused {w = v} i r h) = subst Owns h (Owns-insert i v (Reachable-Owned v r))

  -- In every reachable table `current` has a chain of enclosing scopes, the four lookups end without
  -- a failed assertion, and along that chain they give what lexical scoping gives: the symbol that
  -- the innermost scope with the name has for it (explicit before implicit, null where it is of
  -- another class), and for labels within the scopes up to that of the function.
  pub lookups-visible :
      (w : Walker V) (name : Name)
      → Reachable w
      → (path : List Scope) × Encloses w.scopes w.current path
        × (lookup_var w name false ≡ ok (visible_var w.symbols path name))
        × (lookup_func w name false ≡ ok (visible_func w.symbols path name))
        × (lookup_type w name false ≡ ok (visible_type path name))
        × (lookup_label w name false ≡ ok (visible_label path name))
  lookups-visible w name r =
      let okay = Reachable-WellFormed w r in
      let owned = Reachable-Owned w r in
      let (path, x) = Encloses-exists w.scopes w.current okay.tree okay.current in
      (
        path,
        x,
        lookup_var-visible_var w name okay x owned,
        lookup_func-visible_func w name okay x owned,
        lookup_type-visible_type w name okay x,
        lookup_label-visible_label w name okay x,
      )
