-- ===== src/Symbols/Enter.antt =====
-- The invariant under `push_scope` and `enter_scope`.
use enlightenedc.Prelude.{
  ℕ, zero, suc, ◌+◌, ◌≡◌, refl, sym, ap, subst, ◌∙◌, ◌≤◌, false, Option, some, List, [], ◌∷◌, ◌++◌,
  length, get_elem?, set, Bool-cases, inl, inr, arith, length-set, ltb, length-append, some_eq,
  ltb→lt, lt→ltb,
}
use enlightenedc.Outcome.{internal_error}
use enlightenedc.Symbols.Scope.{
  Scope, Walker, Step, done, failed, at_current, put_current, new_scope,
}
use enlightenedc.Symbols.Walk.{push_scope, enter_scope, add_scope, descend}
use enlightenedc.Symbols.Tree.{
  Shape, shape, shapes, Tree, WellFormed, Depth, at_root, inside, get_elem?-some, get_elem?-bound,
  get_elem?-shapes, length-shapes,
}
use enlightenedc.Symbols.Grow.{grown, Tree-grown, Depth-grown}

pub shapes-grow :
    (scopes : List Scope) (i : ℕ) (s' n : Scope)
    → shapes (set scopes i s' ++ (n ∷ [])) ≡ set (shapes scopes) i (shape s') ++ (shape n ∷ [])
shapes-grow [] i s' n = refl
shapes-grow (t ∷ scopes) zero s' n = ap (λ xs. shape s' ∷ xs) (shapes-end scopes)
  where
    shapes-end : (xs : List Scope) → shapes (xs ++ (n ∷ [])) ≡ shapes xs ++ (shape n ∷ [])
    shapes-end [] = refl
    shapes-end (x ∷ xs) = ap (λ ys. shape x ∷ ys) (shapes-end xs)
shapes-grow (t ∷ scopes) (suc i) s' n = ap (λ xs. shape t ∷ xs) (shapes-grow scopes i s' n)

module _ {V : Type 0} where
  -- The scope that `current` points to.
  pub current_scope :
      (w : Walker V) → WellFormed w → (s : Scope) × (get_elem? w.scopes w.current ≡ some s)
  current_scope w ok = get_elem?-some w.scopes w.current ok.current

  pub shapes-add_scope :
      (w : Walker V) (s : Scope) (assoc : Option ℕ)
      → shapes (add_scope w s assoc).scopes ≡ grown (shapes w.scopes) w.current (shape s) w.next_id
  unfolding add_scope put_current new_scope
  shapes-add_scope w s assoc = rw (length-shapes w.scopes) (shapes-grow w.scopes w.current _ _)

  pub WellFormed-add_scope :
      (w : Walker V) (s : Scope) (assoc : Option ℕ)
      → WellFormed w
      → get_elem? w.scopes w.current ≡ some s
      → WellFormed (add_scope w s assoc)
  unfolding add_scope put_current
  WellFormed-add_scope w s assoc ok h = record {
    tree = subst Tree (sym (shapes-add_scope w s assoc)) (
        Tree-grown (shapes w.scopes) w.current (shape s) w.next_id
          (get_elem?-shapes w.scopes w.current h) ok.tree
          (ok.fresh ∙ sym (length-shapes w.scopes)));
    current = omega (
      arith,
      ok.current,
      length-set w.scopes w.current (record s { nested = s.nested ++ (length w.scopes ∷ []) }),
      length-append
          (set w.scopes w.current (record s { nested = s.nested ++ (length w.scopes ∷ []) }))
          (new_scope assoc (some w.current) w.next_id (some w.next_scope_idx) ∷ []),
    );
    depth = λ d x. ok.depth d (
        Depth-grown (shapes w.scopes) w.current (shape s) w.next_id
          (get_elem?-shapes w.scopes w.current h) w.current d ok.tree
          (omega (arith, ok.current, length-shapes w.scopes))
          (subst (λ sh. Depth sh w.current d) (shapes-add_scope w s assoc) x));
    fresh = omega (
      arith,
      ok.fresh,
      length-set w.scopes w.current (record s { nested = s.nested ++ (length w.scopes ∷ []) }),
      length-append
          (set w.scopes w.current (record s { nested = s.nested ++ (length w.scopes ∷ []) }))
          (new_scope assoc (some w.current) w.next_id (some w.next_scope_idx) ∷ []),
    );
  }

  pub WellFormed-descend :
      (w : Walker V) (s : Scope) (j : ℕ)
      → WellFormed w
      → get_elem? w.scopes w.current ≡ some s
      → get_elem? s.nested w.next_scope_idx ≡ some j
      → WellFormed (record w {
        current = j;
        prev_scope_idxs = (w.next_scope_idx + 1) ∷ w.prev_scope_idxs;
        next_scope_idx = 0;
      })
  WellFormed-descend w s j ok h e =
      let (c, p, q) =
        ok.tree.child w.current (shape s) w.next_scope_idx j (get_elem?-shapes w.scopes w.current h)
          e in
      record {
        tree = ok.tree;
        current = omega (arith, get_elem?-bound (shapes w.scopes) j p, length-shapes w.scopes);
        depth = λ d x. deeper d c p q x;
        fresh = ok.fresh;
      }
    where
      deeper :
          (d : ℕ) (c : Shape)
          → get_elem? (shapes w.scopes) j ≡ some c
          → c.outer ≡ some w.current
          → Depth (shapes w.scopes) j d
          → d ≤ suc (length w.prev_scope_idxs)
      deeper d c p q (at_root t u v) = omega arith
      deeper (suc d) c p q (inside t k u v y) =
          let same = some_eq (sym v ∙ ap (λ (z : Shape). z.outer) (some_eq (sym u ∙ p)) ∙ q) in
          omega (arith, ok.depth d (subst (λ n. Depth (shapes w.scopes) n d) same y))

  abbrev pub entered : Walker V → ℕ → Walker V
  entered w j = record w {
    current = j;
    prev_scope_idxs = (w.next_scope_idx + 1) ∷ w.prev_scope_idxs;
    next_scope_idx = 0;
  }

  pub enter_scope-eq :
      (w : Walker V) {s : Scope} {j : ℕ}
      → get_elem? w.scopes w.current ≡ some s
      → get_elem? s.nested w.next_scope_idx ≡ some j
      → enter_scope w ≡ done tt (entered w j)
  unfolding enter_scope at_current descend
  enter_scope-eq w {s} p q =
      rw (p, lt→ltb _ _ (get_elem?-bound s.nested w.next_scope_idx q), q) refl

  pub enter_scope_fails :
      (w : Walker V) {s : Scope}
      → get_elem? w.scopes w.current ≡ some s
      → ltb w.next_scope_idx (length s.nested) ≡ false
      → enter_scope w ≡ failed internal_error
  unfolding enter_scope at_current descend
  enter_scope_fails w p e = rw (p, e) refl

  pub done_eq : {v w : Walker V} → ◌≡◌ {A = Step V (Unit {0})} (done tt v) (done tt w) → v ≡ w
  done_eq h = cc

  pub WellFormed-enter_scope :
      (w w' : Walker V) → WellFormed w → enter_scope w ≡ done tt w' → WellFormed w'
  WellFormed-enter_scope w w' ok h =
      let (s, p) = current_scope w ok in
      elim (Bool-cases (ltb w.next_scope_idx (length s.nested))) [
        | inl e ↦
            let (j, q) = get_elem?-some s.nested w.next_scope_idx (ltb→lt _ _ e) in
            subst WellFormed (done_eq (sym (enter_scope-eq w p q) ∙ h))
              (WellFormed-descend w s j ok p q)
        | inr e ↦ let bad = sym (enter_scope_fails w p e) ∙ h in cc
      ]

  pub push_scope-eq :
      (w : Walker V) {s : Scope} (assoc : Option ℕ)
      → get_elem? w.scopes w.current ≡ some s
      → push_scope w assoc ≡ enter_scope (add_scope w s assoc)
  unfolding push_scope at_current
  push_scope-eq w assoc p = rw p refl

  pub WellFormed-push_scope :
      (w w' : Walker V) (assoc : Option ℕ)
      → WellFormed w
      → push_scope w assoc ≡ done tt w'
      → WellFormed w'
  WellFormed-push_scope w w' assoc ok h =
      let (s, p) = current_scope w ok in
      WellFormed-enter_scope (add_scope w s assoc) w' (WellFormed-add_scope w s assoc ok p)
        (sym (push_scope-eq w assoc p) ∙ h)
