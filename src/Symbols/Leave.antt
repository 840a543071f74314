-- ===== src/Symbols/Leave.antt =====
-- The invariant under `pop_scope` and `reset`.
use enlightenedc.Prelude.{
  ℕ, suc, ◌≡◌, ◌≢◌, refl, sym, ap, subst, ◌∙◌, ◌≤◌, some, List, [], ◌∷◌, length, get_elem?,
  Option-cases, inl, inr, arith, ==_ne, ==_same, ℕ-cases,
}
use enlightenedc.Symbols.Scope.{Scope, Walker, done, at_current}
use enlightenedc.Symbols.Walk.{pop_scope, reset, ascend}
use enlightenedc.Symbols.Tree.{
  Shape, shape, shapes, Tree, Tree-Depth, WellFormed, Depth, at_root, inside, get_elem?-shapes,
  length-shapes,
}
use enlightenedc.Symbols.Enter.{current_scope, done_eq}

indices-cases : (xs : List ℕ) → 1 ≤ length xs → (x : ℕ) × (rest : List ℕ) × (xs ≡ x ∷ rest)
indices-cases [] h = elim h [ ]
indices-cases (x ∷ xs) h = (x, xs, refl)

Depth-root : {sh : List Shape} {d : ℕ} → Tree sh → Depth sh 0 d → d ≡ 0
Depth-root tree (at_root s p q) = refl
Depth-root tree (inside s j p q x) = absurd (omega (arith, tree.older 0 s j p q))

module _ {V : Type 0} where
  abbrev pub left : Walker V → ℕ → ℕ → List ℕ → Walker V
  left w o idx idxs = record w { current = o; next_scope_idx = idx; prev_scope_idxs = idxs }

  pub WellFormed-left :
      (w : Walker V) (s : Scope) (o idx : ℕ) (idxs : List ℕ)
      → WellFormed w
      → get_elem? w.scopes w.current ≡ some s
      → s.outer ≡ some o
      → w.prev_scope_idxs ≡ idx ∷ idxs
      → WellFormed (left w o idx idxs)
  WellFormed-left w s o idx idxs ok p q e = record {
    tree = ok.tree;
    current = omega (
      arith,
      ok.tree.older w.current (shape s) o (get_elem?-shapes w.scopes w.current p) q,
      ok.current,
    );
    depth = λ d x. omega (
      arith,
      ap length e,
      ok.depth (suc d) (inside (shape s) o (get_elem?-shapes w.scopes w.current p) q x),
    );
    fresh = ok.fresh;
  }

  pub pop_scope-eq :
      (w : Walker V) {s : Scope} {o idx : ℕ} {idxs : List ℕ}
      → w.current ≢ 0
      → get_elem? w.scopes w.current ≡ some s
      → s.outer ≡ some o
      → w.prev_scope_idxs ≡ idx ∷ idxs
      → pop_scope w ≡ done tt (left w o idx idxs)
  unfolding pop_scope at_current ascend
  pop_scope-eq w n p q e = rw (==_ne w.current 0 n, p, q, e) refl

  pub pop_scope_root : (w : Walker V) → w.current ≡ 0 → pop_scope w ≡ done tt w
  unfolding pop_scope
  pop_scope_root w e = rw (==_same w.current 0 e) refl

  -- A scope other than the global one has an outer one.
  outer_of :
      (w : Walker V) {s : Scope}
      → WellFormed w
      → get_elem? w.scopes w.current ≡ some s
      → w.current ≢ 0
      → (o : ℕ) × (s.outer ≡ some o)
  outer_of w {s} ok p n = elim (Option-cases s.outer) [
    | inl e ↦
        absurd (n (ok.tree.rooted w.current (shape s) (get_elem?-shapes w.scopes w.current p) e))
    | inr (o, e) ↦ (o, e)
  ]

  indexed :
      (w : Walker V) {s : Scope} {o : ℕ}
      → WellFormed w
      → get_elem? w.scopes w.current ≡ some s
      → s.outer ≡ some o
      → 1 ≤ length w.prev_scope_idxs
  indexed w {s} {o} ok p q =
      let there = get_elem?-shapes w.scopes w.current p in
      let (d, x) = Tree-Depth (shapes w.scopes) o ok.tree (
        omega (
          arith,
          ok.tree.older w.current (shape s) o there q,
          ok.current,
          length-shapes w.scopes,
        )) in
      omega (arith, ok.depth (suc d) (inside (shape s) o there q x))

  -- In a well-formed state `pop_scope` ends, without an unreachable branch and without reading the top
  -- of an empty stack, in a well-formed state.
  pub pop_scope-total :
      (w : Walker V) → WellFormed w → (w' : Walker V) × (pop_scope w ≡ done tt w') × WellFormed w'
  pop_scope-total w ok = elim (ℕ-cases w.current 0) [
    | inl e ↦ (w, pop_scope_root w e, ok)
    | inr n ↦
        let (s, p) = current_scope w ok in
        let (o, q) = outer_of w ok p n in
        let (idx, idxs, e) = indices-cases w.prev_scope_idxs (indexed w ok p q) in
        (left w o idx idxs, pop_scope-eq w n p q e, WellFormed-left w s o idx idxs ok p q e)
  ]

  pub WellFormed-pop_scope :
      (w w' : Walker V) → WellFormed w → pop_scope w ≡ done tt w' → WellFormed w'
  WellFormed-pop_scope w w' ok h =
      let (v, p, good) = pop_scope-total w ok in subst WellFormed (done_eq (sym p ∙ h)) good

  pub WellFormed-reset : (w : Walker V) → WellFormed w → WellFormed (reset w)
  unfolding reset
  WellFormed-reset w ok = record {
    tree = ok.tree;
    current = omega (arith, ok.current);
    depth = λ d x. omega (arith, Depth-root ok.tree x);
    fresh = ok.fresh;
  }
