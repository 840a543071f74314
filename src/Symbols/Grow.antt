-- ===== src/Symbols/Grow.antt =====
-- The tree of scopes after `add_scope`: a last scope inside the scope `cur`.
use enlightenedc.Prelude.{
  ℕ, zero, suc, ◌<◌, ◌≡◌, ◌≢◌, ◌⊎◌, inl, inr, refl, sym, ap, ◌∙◌, none, some, List, [], ◌∷◌, ◌++◌,
  length, get_elem?, set, arith, some_eq, length-set, get_elem?-set_self, get_elem?-set_ne, subst,
  ℕ-cases,
}
use enlightenedc.Symbols.Tree.{
  Shape, Tree, Depth, at_root, inside, get_elem?-bound, get_elem?-append, get_elem?-last,
  get_elem?-snoc,
}

-- An element of a list written to at `i`.
pub get_elem?-set :
    {A : Type 0} (xs : List A) (i j : ℕ) (v : A) {x : A}
    → get_elem? (set xs i v) j ≡ some x
    → ((j ≡ i) × (v ≡ x)) ⊎ ((i ≢ j) × (get_elem? xs j ≡ some x))
get_elem?-set [] i j v h = cc
get_elem?-set (y ∷ xs) zero zero v h = inl (refl, some_eq h)
get_elem?-set (y ∷ xs) zero (suc j) v h = inr (λ e. omega (arith, e), h)
get_elem?-set (y ∷ xs) (suc i) zero v h = inr (λ e. omega (arith, e), h)
get_elem?-set (y ∷ xs) (suc i) (suc j) v h = elim (get_elem?-set xs i j v h) [
  | inl (e, f) ↦ inl (ap suc e, f)
  | inr (n, f) ↦ inr (λ e. n (omega (arith, e)), f)
]

module _ (sh : List Shape) (cur : ℕ) (t : Shape) (id : ℕ) where
  abbrev parent : Shape
  parent = record t { nested = t.nested ++ (length sh ∷ []) }

  abbrev newest : Shape
  newest = record { outer = some cur; nested = []; id = id }

  abbrev pub grown : List Shape
  grown = set sh cur parent ++ (newest ∷ [])

  data Slot (i : ℕ) (x : Shape) : Type 0 where
    old : cur ≢ i → get_elem? sh i ≡ some x → Slot i x
    above : i ≡ cur → parent ≡ x → Slot i x
    last : i ≡ length sh → newest ≡ x → Slot i x

  slot : (i : ℕ) {x : Shape} → get_elem? grown i ≡ some x → Slot i x
  slot i h = elim (get_elem?-snoc (set sh cur parent) newest i h) [
    | inl e ↦ elim (get_elem?-set sh cur i parent e) [
      | inl (p, q) ↦ above p q
      | inr (n, q) ↦ old n q
    ]
    | inr (e, f) ↦ last (e ∙ length-set sh cur parent) f
  ]

  module _ (h : get_elem? sh cur ≡ some t) where
    -- A scope that was there is there, with its outer scope.
    remains :
        (j : ℕ) (c : Shape)
        → get_elem? sh j ≡ some c
        → (c' : Shape) × (get_elem? grown j ≡ some c') × (c'.outer ≡ c.outer)
    remains j c p = elim (ℕ-cases cur j) [
      | inl e ↦ (
        parent,
        get_elem?-append (set sh cur parent) (newest ∷ []) j (
            subst (λ k. get_elem? (set sh cur parent) k ≡ some parent) e
              (get_elem?-set_self sh cur parent (get_elem?-bound sh cur h))),
        ap (λ (z : Shape). z.outer)
            (some_eq (sym h ∙ subst (λ k. get_elem? sh k ≡ some c) (sym e) p)),
      )
      | inr n ↦ (
        c,
        get_elem?-append (set sh cur parent) (newest ∷ []) j (get_elem?-set_ne sh parent n ∙ p),
        refl,
      )
    ]

    newest_there : get_elem? grown (length sh) ≡ some newest
    newest_there =
        subst (λ k. get_elem? grown k ≡ some newest) (length-set sh cur parent)
          (get_elem?-last (set sh cur parent) newest)

    -- A tree stays one.
    pub Tree-grown : Tree sh → id ≡ length sh → Tree grown
    Tree-grown tree same_id = record {
      root = let (r, p, q) = tree.root in let (r', p', q') = remains 0 r p in (r', p', q' ∙ q);
      rooted = λ i s p q. rooted_in i s q (slot i p);
      older = λ i s o p q. older_in i s o q (slot i p);
      child = λ i s k j p q. child_in i s k j q (slot i p);
      named = λ i s p. named_in i s (slot i p);
    }
      where
        rooted_in : (i : ℕ) (s : Shape) → s.outer ≡ none → Slot i s → i ≡ 0
        rooted_in i s q (old n p) = tree.rooted i s p q
        rooted_in i s q (above e f) = e ∙ tree.rooted cur t h (ap (λ (z : Shape). z.outer) f ∙ q)
        rooted_in i s q (last e f) = cc

        older_in : (i : ℕ) (s : Shape) (o : ℕ) → s.outer ≡ some o → Slot i s → o < i
        older_in i s o q (old n p) = tree.older i s o p q
        older_in i s o q (above e f) =
            let lt = tree.older cur t o h (ap (λ (z : Shape). z.outer) f ∙ q) in
            omega (arith, lt, e)
        older_in i s o q (last e f) =
            let same = some_eq (ap (λ (z : Shape). z.outer) f ∙ q) in
            omega (arith, same, e, get_elem?-bound sh cur h)

        named_in : (i : ℕ) (s : Shape) → Slot i s → s.id ≡ i
        named_in i s (old n p) = tree.named i s p
        named_in i s (above e f) = sym (ap (λ (z : Shape). z.id) f) ∙ tree.named cur t h ∙ sym e
        named_in i s (last e f) = sym (ap (λ (z : Shape). z.id) f) ∙ same_id ∙ sym e

        carried :
            (i j : ℕ)
            → (c : Shape) × (get_elem? sh j ≡ some c) × (c.outer ≡ some i)
            → (c : Shape) × (get_elem? grown j ≡ some c) × (c.outer ≡ some i)
        carried i j (c, p, q) = let (c', p', q') = remains j c p in (c', p', q' ∙ q)

        child_in :
            (i : ℕ) (s : Shape) (k j : ℕ)
            → get_elem? s.nested k ≡ some j
            → Slot i s
            → (c : Shape) × (get_elem? grown j ≡ some c) × (c.outer ≡ some i)
        child_in i s k j q (old n p) = carried i j (tree.child i s k j p q)
        child_in i s k j q (above e f) =
            elim (get_elem?-snoc t.nested (length sh) k
              (ap (λ (z : Shape). get_elem? z.nested k) f ∙ q)) [
                | inl p ↦ carried i j (
                    subst (λ n. (c : Shape) × (get_elem? sh j ≡ some c) × (c.outer ≡ some n))
                      (sym e) (tree.child cur t k j h p))
                | inr (p, r) ↦ (
                  newest,
                  subst (λ n. get_elem? grown n ≡ some newest) r newest_there,
                  ap some (sym e),
                )
              ]
        child_in i s k j q (last e f) = cc

    -- A scope that was there already, with its outer scope.
    origin :
        (i : ℕ) (s : Shape)
        → i < length sh
        → Slot i s
        → (c : Shape) × (get_elem? sh i ≡ some c) × (c.outer ≡ s.outer)
    origin i s b (old n p) = (s, p, refl)
    origin i s b (above e f) = (t, ap (λ k. get_elem? sh k) e ∙ h, ap (λ (z : Shape). z.outer) f)
    origin i s b (last e f) = absurd (omega (arith, e, b))

    pub Depth-grown : (i d : ℕ) → Tree sh → i < length sh → Depth grown i d → Depth sh i d
    Depth-grown i d tree b (at_root s p q) =
        let (c, p', q') = origin i s b (slot i p) in at_root c p' (q' ∙ q)
    Depth-grown i (suc d) tree b (inside s j p q x) =
        let (c, p', q') = origin i s b (slot i p) in
        inside c j p' (q' ∙ q)
          (Depth-grown j d tree (omega (arith, tree.older i c j p' (q' ∙ q), b)) x)
