-- ===== src/Symbols/Tree.antt =====
-- The invariant of the symbol table's scopes: a tree with the global scope as its root, in which an
-- outer scope is older than the scopes inside it, and a walker's place in it.
use enlightenedc.Prelude.{
  ℕ, suc, ◌≤◌, ◌<◌, ◌≡◌, refl, sym, ap, Option, none, some, List, [], ◌∷◌, ◌++◌, map, length,
  get_elem?, set, arith, some_eq, zero, ◌∙◌, ◌⊎◌, inl, inr, Option-cases,
}
use enlightenedc.Symbols.Scope.{Scope, Walker}

-- What of a scope places it in the tree.
pub record Shape : Type 0 where
  pub outer : Option ℕ
  pub nested : List ℕ
  pub id : ℕ

abbrev pub shape : Scope → Shape
shape s = record { outer = s.outer; nested = s.nested; id = s.id }

abbrev pub shapes : List Scope → List Shape
shapes scopes = map shape scopes

pub record Tree (sh : List Shape) : Type 0 where
  pub root : (s : Shape) × (get_elem? sh 0 ≡ some s) × (s.outer ≡ none)
  pub rooted : (i : ℕ) (s : Shape) → get_elem? sh i ≡ some s → s.outer ≡ none → i ≡ 0
  pub older : (i : ℕ) (s : Shape) (o : ℕ) → get_elem? sh i ≡ some s → s.outer ≡ some o → o < i
  pub child :
      (i : ℕ) (s : Shape) (k j : ℕ)
      → get_elem? sh i ≡ some s
      → get_elem? s.nested k ≡ some j
      → (c : Shape) × (get_elem? sh j ≡ some c) × (c.outer ≡ some i)
  pub named : (i : ℕ) (s : Shape) → get_elem? sh i ≡ some s → s.id ≡ i

-- How many scopes enclose the scope `i`.
pub data Depth (sh : List Shape) : ℕ → ℕ → Type 0 where
  at_root : {i : ℕ} (s : Shape) → get_elem? sh i ≡ some s → s.outer ≡ none → Depth sh i 0
  inside :
      {i : ℕ} (s : Shape) (j : ℕ) {d : ℕ}
      → get_elem? sh i ≡ some s
      → s.outer ≡ some j
      → Depth sh j d
      → Depth sh i (suc d)

-- A walker stands in a tree, with at least as many saved indices as scopes around it.
pub record WellFormed {V : Type 0} (w : Walker V) : Type 0 where
  pub tree : Tree (shapes w.scopes)
  pub current : w.current < length w.scopes
  pub depth : (d : ℕ) → Depth (shapes w.scopes) w.current d → d ≤ length w.prev_scope_idxs
  pub fresh : w.next_id ≡ length w.scopes

module _ {ℓ} {A : Type ℓ} where
  pub get_elem?-some : (xs : List A) (i : ℕ) → i < length xs → (x : A) × (get_elem? xs i ≡ some x)
  get_elem?-some [] i h = elim h [ ]
  get_elem?-some (x ∷ xs) zero h = (x, refl)
  get_elem?-some (x ∷ xs) (suc i) h = get_elem?-some xs i (omega arith)

  pub get_elem?-bound : (xs : List A) (i : ℕ) {x : A} → get_elem? xs i ≡ some x → i < length xs
  get_elem?-bound [] i h = cc
  get_elem?-bound (x ∷ xs) zero h = omega arith
  get_elem?-bound (x ∷ xs) (suc i) h = omega (arith, get_elem?-bound xs i h)

  pub get_elem?-append :
      (xs ys : List A) (i : ℕ) {x : A} → get_elem? xs i ≡ some x → get_elem? (xs ++ ys) i ≡ some x
  get_elem?-append [] ys i h = cc
  get_elem?-append (x ∷ xs) ys zero h = h
  get_elem?-append (x ∷ xs) ys (suc i) h = get_elem?-append xs ys i h

  pub get_elem?-last : (xs : List A) (x : A) → get_elem? (xs ++ (x ∷ [])) (length xs) ≡ some x
  get_elem?-last [] x = refl
  get_elem?-last (y ∷ xs) x = get_elem?-last xs x

  -- An element of a list with one more at the end.
  pub get_elem?-snoc :
      (xs : List A) (y : A) (i : ℕ) {x : A}
      → get_elem? (xs ++ (y ∷ [])) i ≡ some x
      → (get_elem? xs i ≡ some x) ⊎ ((i ≡ length xs) × (y ≡ x))
  get_elem?-snoc [] y zero h = inr (refl, some_eq h)
  get_elem?-snoc [] y (suc i) h = cc
  get_elem?-snoc (z ∷ xs) y zero h = inl h
  get_elem?-snoc (z ∷ xs) y (suc i) h = elim (get_elem?-snoc xs y i h) [
    | inl e ↦ inl e
    | inr (e, f) ↦ inr (ap suc e, f)
  ]

pub length-shapes : (scopes : List Scope) → length (shapes scopes) ≡ length scopes
length-shapes [] = refl
length-shapes (s ∷ scopes) = ap suc (length-shapes scopes)

pub get_elem?-shapes :
    (scopes : List Scope) (i : ℕ) {s : Scope}
    → get_elem? scopes i ≡ some s
    → get_elem? (shapes scopes) i ≡ some (shape s)
get_elem?-shapes [] i h = cc
get_elem?-shapes (t ∷ scopes) zero h = ap some (ap shape (some_eq h))
get_elem?-shapes (t ∷ scopes) (suc i) h = get_elem?-shapes scopes i h

pub get_elem?-scopes :
    (scopes : List Scope) (i : ℕ) {t : Shape}
    → get_elem? (shapes scopes) i ≡ some t
    → (s : Scope) × (get_elem? scopes i ≡ some s) × (shape s ≡ t)
get_elem?-scopes [] i h = cc
get_elem?-scopes (s ∷ scopes) zero h = (s, refl, some_eq h)
get_elem?-scopes (s ∷ scopes) (suc i) h = get_elem?-scopes scopes i h

-- Writing to a scope what leaves its place alone.
pub shapes-set :
    (scopes : List Scope) (i : ℕ) {s : Scope} (s' : Scope)
    → get_elem? scopes i ≡ some s
    → shape s' ≡ shape s
    → shapes (set scopes i s') ≡ shapes scopes
shapes-set [] i s' h e = refl
shapes-set (t ∷ scopes) zero s' h e =
    ap (λ (x : Shape). x ∷ shapes scopes) (e ∙ sym (ap shape (some_eq h)))
shapes-set (t ∷ scopes) (suc i) s' h e = ap (λ xs. shape t ∷ xs) (shapes-set scopes i s' h e)

-- Every scope of a tree has a depth.
Depth-within :
    (sh : List Shape) (fuel i : ℕ) → Tree sh → i < length sh → i < fuel → (d : ℕ) × Depth sh i d
Depth-within sh zero i tree h g = elim g [ ]
Depth-within sh (suc fuel) i tree h g =
    let (s, p) = get_elem?-some sh i h in
    elim (Option-cases s.outer) [
      | inl e ↦ (0, at_root s p e)
      | inr (o, e) ↦
          let lt = tree.older i s o p e in
          let (d, q) = Depth-within sh fuel o tree (omega (arith, lt)) (omega (arith, lt)) in
          (suc d, inside s o p e q)
    ]

pub Tree-Depth : (sh : List Shape) (i : ℕ) → Tree sh → i < length sh → (d : ℕ) × Depth sh i d
Tree-Depth sh i tree h = Depth-within sh (suc i) i tree h (omega arith)
