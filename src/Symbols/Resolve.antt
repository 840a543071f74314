-- ===== src/Symbols/Resolve.antt =====
-- What the lookups find, described by the scopes that enclose the current one.
use enlightenedc.Prelude.{
  ℕ, zero, suc, ◌≡◌, refl, ◌<◌, Bool, Option, none, some, List, [], ◌∷◌, length, get_elem?,
  Option-cases, Bool-cases, inl, inr, arith, match_option, if◌then◌else◌, ==_same,
}
use enlightenedc.Outcome.{ok}
use enlightenedc.Symbols.Name.{Name, find}
use enlightenedc.Symbols.Scope.{Scope, Symbol}
use enlightenedc.Symbols.Lookup.{outward, outward_at, is_var, is_func}
use enlightenedc.Symbols.Tree.{Tree, shape, shapes, get_elem?-shapes, get_elem?-some}

-- The scopes from the scope `i` outwards.
pub data Encloses (scopes : List Scope) : ℕ → List Scope → Type 0 where
  outermost :
      {i : ℕ} (s : Scope)
      → get_elem? scopes i ≡ some s
      → s.outer ≡ none
      → Encloses scopes i (s ∷ [])
  enclosed :
      {i : ℕ} (s : Scope) (j : ℕ) {path : List Scope}
      → get_elem? scopes i ≡ some s
      → s.outer ≡ some j
      → Encloses scopes j path
      → Encloses scopes i (s ∷ path)

-- The first scope that has the name, none of those before it being a boundary.
unfoldable pub first_with : (Scope → Bool) → (Scope → Bool) → List Scope → Option Scope
first_with has boundary [] = none
first_with has boundary (s ∷ path) =
    if has s then some s else (if boundary s then none else first_with has boundary path)

outward-outermost :
    (has boundary : Scope → Bool) (fuel i : ℕ) (scopes : List Scope) (s : Scope)
    → get_elem? scopes i ≡ some s
    → s.outer ≡ none
    → i ≡ 0
    → outward has boundary (suc fuel) scopes i ≡ ok (first_with has boundary (s ∷ []))
unfolding outward outward_at first_with
outward-outermost has boundary fuel i scopes s p q z = elim (Bool-cases (has s)) [
  | inl e ↦ rw (p, e) refl
  | inr e ↦ elim (Bool-cases (boundary s)) [
    | inl f ↦ rw (p, e, f) refl
    | inr f ↦ rw (p, e, f, q, ==_same i 0 z) refl
  ]
]

outward-enclosed :
    (has boundary : Scope → Bool) (fuel i j : ℕ) (scopes : List Scope) (s : Scope)
    (path : List Scope)
    → get_elem? scopes i ≡ some s
    → s.outer ≡ some j
    → outward has boundary fuel scopes j ≡ ok (first_with has boundary path)
    → outward has boundary (suc fuel) scopes i ≡ ok (first_with has boundary (s ∷ path))
unfolding outward outward_at first_with
outward-enclosed has boundary fuel i j scopes s path p q ih = elim (Bool-cases (has s)) [
  | inl e ↦ rw (p, e) refl
  | inr e ↦ elim (Bool-cases (boundary s)) [
    | inl f ↦ rw (p, e, f) refl
    | inr f ↦ rw (p, e, f, q) ih
  ]
]

-- The loop with enough fuel.
pub outward-first_with :
    (has boundary : Scope → Bool) (fuel i : ℕ) (scopes path : List Scope)
    → Tree (shapes scopes)
    → Encloses scopes i path
    → i < fuel
    → outward has boundary fuel scopes i ≡ ok (first_with has boundary path)
outward-first_with has boundary zero i scopes path tree x h = elim h [ ]
outward-first_with has boundary (suc fuel) i scopes path tree (outermost s p q) h =
    outward-outermost has boundary fuel i scopes s p q
      (tree.rooted i (shape s) (get_elem?-shapes scopes i p) q)
outward-first_with has boundary (suc fuel) i scopes path tree (enclosed s j {path = rest} p q x) h =
    outward-enclosed has boundary fuel i j scopes s rest p q (
      outward-first_with has boundary fuel j scopes rest tree x
        (omega (arith, tree.older i (shape s) j (get_elem?-shapes scopes i p) q, h)))

Encloses-within :
    (scopes : List Scope) (fuel i : ℕ)
    → Tree (shapes scopes)
    → i < length scopes
    → i < fuel
    → (path : List Scope) × Encloses scopes i path
Encloses-within scopes zero i tree h g = elim g [ ]
Encloses-within scopes (suc fuel) i tree h g =
    let (s, p) = get_elem?-some scopes i h in
    elim (Option-cases s.outer) [
      | inl e ↦ (s ∷ [], outermost s p e)
      | inr (o, e) ↦
          let lt = tree.older i (shape s) o (get_elem?-shapes scopes i p) e in
          let (path, x) =
            Encloses-within scopes fuel o tree (omega (arith, lt, h)) (omega (arith, lt, g)) in
          (s ∷ path, enclosed s o p e x)
    ]

-- Every scope of a tree has its enclosing scopes.
pub Encloses-exists :
    (scopes : List Scope) (i : ℕ)
    → Tree (shapes scopes)
    → i < length scopes
    → (path : List Scope) × Encloses scopes i path
Encloses-exists scopes i tree h = Encloses-within scopes (suc i) i tree h (omega arith)

module _ {V : Type 0} where
  -- The symbol, if it is of the class that the test tells.
  unfoldable pub of_class : (Symbol V → Bool) → List (Symbol V) → ℕ → Option ℕ
  of_class test symbols p =
      match_option (get_elem? symbols p) none (λ sym. if test sym then some p else none)

  -- The variable that a name means inside the scopes of `path`: in each scope the explicit symbols
  -- come before the implicit ones, and the first scope that has the name decides.
  unfoldable pub visible_var : List (Symbol V) → List Scope → Name → Option ℕ
  unfolding of_class is_var
  visible_var symbols [] name = none
  visible_var symbols (s ∷ path) name =
      match_option (find s.phys_symbols name)
        (match_option (find s.implicits name) (visible_var symbols path name)
          (of_class is_var symbols))
        (of_class is_var symbols)

  unfoldable pub visible_func : List (Symbol V) → List Scope → Name → Option ℕ
  unfolding of_class is_func
  visible_func symbols [] name = none
  visible_func symbols (s ∷ path) name =
      match_option (find s.phys_symbols name) (visible_func symbols path name)
        (of_class is_func symbols)

-- The type that a name means.
unfoldable pub visible_type : List Scope → Name → Option ℕ
visible_type [] name = none
visible_type (s ∷ path) name = match_option (find s.type_symbols name) (visible_type path name) some

-- The label that a name means: the scopes up to the one of the function count.
unfoldable pub visible_label : List Scope → Name → Option ℕ
visible_label [] name = none
visible_label (s ∷ path) name =
    match_option (find s.label_symbols name)
      (match_option s.assoc (visible_label path name) (λ f. none)) some
