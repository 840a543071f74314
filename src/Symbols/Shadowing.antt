-- ===== src/Symbols/Shadowing.antt =====
-- The lookups against their descriptions.
use enlightenedc.Prelude.{
  ℕ, ◌≡◌, refl, sym, ap, ◌∙◌, ◌<◌, Bool, false, none, some, List, [], ◌∷◌, length, get_elem?,
  Option-cases, Bool-cases, inl, inr, arith, match_option, if◌then◌else◌, ℕ-cases, ==_same, ==_ne,
}
use enlightenedc.Outcome.{ok, fail, undefined_behaviour, ◌>>=◌}
use enlightenedc.Symbols.Name.{Name, find, contains, contains-found, contains-missing}
use enlightenedc.Symbols.Scope.{Scope, Walker, Symbol, locally_contains, scope_get}
use enlightenedc.Symbols.Lookup.{
  outward, inward, anywhere, is_function_scope, is_var, is_func, narrow, search, lookup_var,
  lookup_func, lookup_type, lookup_label,
}
use enlightenedc.Symbols.Tree.{WellFormed, shape, get_elem?-shapes, get_elem?-some}
use enlightenedc.Symbols.Resolve.{
  Encloses, outermost, enclosed, first_with, outward-first_with, of_class, visible_var,
  visible_func, visible_type, visible_label,
}

-- The pointers in a scope's maps are to symbols that exist.
pub record OwnedBy (n : ℕ) (s : Scope) : Type 0 where
  pub phys : (name : Name) (p : ℕ) → find s.phys_symbols name ≡ some p → p < n
  pub implicits : (name : Name) (p : ℕ) → find s.implicits name ≡ some p → p < n

abbrev pub Owned : {V : Type 0} → Walker V → Type 0
Owned w = (i : ℕ) (s : Scope) → get_elem? w.scopes i ≡ some s → OwnedBy (length w.symbols) s

module _ {V : Type 0} (w : Walker V) (name : Name) where
  narrow-of_class :
      (test : Symbol V → Bool) (p : ℕ)
      → p < length w.symbols
      → narrow test w (some p) ≡ ok (of_class test w.symbols p)
  unfolding narrow of_class
  narrow-of_class test p h = let (sym, e) = get_elem?-some w.symbols p h in rw e refl

  found_var_in :
      (s : Scope)
      → OwnedBy (length w.symbols) s
      → (rest : List Scope)
      → match_option
          (first_with (λ t. locally_contains t name) anywhere rest)
          (ok none)
          (λ t. narrow is_var w (scope_get t name))
        ≡ ok (visible_var w.symbols rest name)
      → match_option
          (first_with (λ t. locally_contains t name) anywhere (s ∷ rest))
          (ok none)
          (λ t. narrow is_var w (scope_get t name))
        ≡ ok (visible_var w.symbols (s ∷ rest) name)
  unfolding first_with anywhere locally_contains scope_get visible_var
  found_var_in s o rest ih = elim (Option-cases (find s.phys_symbols name)) [
    | inr (p, e) ↦
        rw (contains-found s.phys_symbols name e, e)
          (rw (contains-found s.phys_symbols name e) (narrow-of_class is_var p (o.phys name p e)))
    | inl e ↦ elim (Option-cases (find s.implicits name)) [
      | inr (p, f) ↦
          rw (contains-missing s.phys_symbols name e, contains-found s.implicits name f, e, f)
            (rw (contains-missing s.phys_symbols name e, contains-found s.implicits name f)
              (narrow-of_class is_var p (o.implicits name p f)))
      | inl f ↦
          rw (contains-missing s.phys_symbols name e, contains-missing s.implicits name f, e, f) ih
    ]
  ]

  found_var :
      {i : ℕ} (path : List Scope)
      → Owned w
      → Encloses w.scopes i path
      → match_option
          (first_with (λ s. locally_contains s name) anywhere path)
          (ok none)
          (λ s. narrow is_var w (scope_get s name))
        ≡ ok (visible_var w.symbols path name)
  unfolding first_with anywhere locally_contains scope_get visible_var
  found_var path own (outermost s p q) = found_var_in s (own _ s p) [] refl
  found_var path own (enclosed s j {path = rest} p q y) =
      found_var_in s (own _ s p) rest (found_var rest own y)

  found_func_in :
      (s : Scope)
      → OwnedBy (length w.symbols) s
      → (rest : List Scope)
      → match_option
          (first_with (λ t. contains t.phys_symbols name) anywhere rest)
          (ok none)
          (λ t. narrow is_func w (find t.phys_symbols name))
        ≡ ok (visible_func w.symbols rest name)
      → match_option
          (first_with (λ t. contains t.phys_symbols name) anywhere (s ∷ rest))
          (ok none)
          (λ t. narrow is_func w (find t.phys_symbols name))
        ≡ ok (visible_func w.symbols (s ∷ rest) name)
  unfolding first_with anywhere visible_func
  found_func_in s o rest ih = elim (Option-cases (find s.phys_symbols name)) [
    | inr (p, e) ↦
        rw (contains-found s.phys_symbols name e, e) (narrow-of_class is_func p (o.phys name p e))
    | inl e ↦ rw (contains-missing s.phys_symbols name e, e) ih
  ]

  found_func :
      {i : ℕ} (path : List Scope)
      → Owned w
      → Encloses w.scopes i path
      → match_option
          (first_with (λ s. contains s.phys_symbols name) anywhere path)
          (ok none)
          (λ s. narrow is_func w (find s.phys_symbols name))
        ≡ ok (visible_func w.symbols path name)
  unfolding first_with anywhere visible_func
  found_func path own (outermost s p q) = found_func_in s (own _ s p) [] refl
  found_func path own (enclosed s j {path = rest} p q y) =
      found_func_in s (own _ s p) rest (found_func rest own y)

  found_type :
      (path : List Scope)
      → match_option
          (first_with (λ s. contains s.type_symbols name) anywhere path)
          (ok none)
          (λ s. ok (find s.type_symbols name))
        ≡ ok (visible_type path name)
  unfolding first_with anywhere visible_type
  found_type [] = refl
  found_type (s ∷ rest) = elim (Option-cases (find s.type_symbols name)) [
    | inr (p, e) ↦ rw (contains-found s.type_symbols name e, e) refl
    | inl e ↦ rw (contains-missing s.type_symbols name e, e) (found_type rest)
  ]

  found_label :
      (path : List Scope)
      → match_option
          (first_with (λ s. contains s.label_symbols name) is_function_scope path)
          (ok none)
          (λ s. ok (find s.label_symbols name))
        ≡ ok (visible_label path name)
  unfolding first_with is_function_scope visible_label
  found_label [] = refl
  found_label (s ∷ rest) = elim (Option-cases (find s.label_symbols name)) [
    | inr (p, e) ↦ rw (contains-found s.label_symbols name e, e) refl
    | inl e ↦ elim (Option-cases s.assoc) [
      | inr (f, a) ↦ rw (contains-missing s.label_symbols name e, e, a) refl
      | inl a ↦ rw (contains-missing s.label_symbols name e, e, a) (found_label rest)
    ]
  ]

  label_alone :
      (s : Scope)
      → (if contains s.label_symbols name then find s.label_symbols name else none)
        ≡ visible_label (s ∷ []) name
  unfolding visible_label
  label_alone s = elim (Option-cases (find s.label_symbols name)) [
    | inr (p, e) ↦ rw (contains-found s.label_symbols name e, e) refl
    | inl e ↦ elim (Option-cases s.assoc) [
      | inl a ↦ rw (contains-missing s.label_symbols name e, e, a) refl
      | inr (f, a) ↦ rw (contains-missing s.label_symbols name e, e, a) refl
    ]
  ]

  -- At the global scope the lookup of a label looks there alone.
  label_at_root :
      (path : List Scope)
      → WellFormed w
      → Encloses w.scopes w.current path
      → w.current ≡ 0
      → match_option
          (get_elem? w.scopes w.current)
          (fail undefined_behaviour)
          (λ s. ok (if contains s.label_symbols name then find s.label_symbols name else none))
        ≡ ok (visible_label path name)
  label_at_root path okay x z = alone_in w.current x refl
    where
      alone_in :
          (i : ℕ) {path' : List Scope}
          → Encloses w.scopes i path'
          → i ≡ w.current
          → match_option
              (get_elem? w.scopes i)
              (fail undefined_behaviour)
              (λ s. ok (if contains s.label_symbols name then find s.label_symbols name else none))
            ≡ ok (visible_label path' name)
      alone_in i (outermost s p q) e = rw p (ap ok (label_alone s))
      alone_in i (enclosed s j p q y) e =
          absurd
            (omega (arith, okay.tree.older i (shape s) j (get_elem?-shapes w.scopes i p) q, e, z))

  module _ {path : List Scope} (okay : WellFormed w) (x : Encloses w.scopes w.current path) where
    outwards :
        (has boundary : Scope → Bool)
        → outward has boundary (length w.scopes) w.scopes w.current
          ≡ ok (first_with has boundary path)
    outwards has boundary =
        outward-first_with has boundary (length w.scopes) w.current w.scopes path okay.tree x
          okay.current

    pub lookup_var-visible_var :
        Owned w → lookup_var w name false ≡ ok (visible_var w.symbols path name)
    unfolding lookup_var search
    lookup_var-visible_var own =
        rw (outwards (λ s. locally_contains s name) anywhere) (found_var path own x)

    pub lookup_func-visible_func :
        Owned w → lookup_func w name false ≡ ok (visible_func w.symbols path name)
    unfolding lookup_func search
    lookup_func-visible_func own =
        rw (outwards (λ s. contains s.phys_symbols name) anywhere) (found_func path own x)

    pub lookup_type-visible_type : lookup_type w name false ≡ ok (visible_type path name)
    unfolding lookup_type search
    lookup_type-visible_type =
        rw (outwards (λ s. contains s.type_symbols name) anywhere) (found_type path)

    pub lookup_label-visible_label : lookup_label w name false ≡ ok (visible_label path name)
    unfolding lookup_label search inward
    lookup_label-visible_label = elim (ℕ-cases w.current 0) [
      | inr n ↦
          rw (==_ne w.current 0 n, outwards (λ s. contains s.label_symbols name) is_function_scope)
            (found_label path)
      | inl z ↦ rw (==_same w.current 0 z) (inward_label ∙ label_at_root path okay x z)
    ]
      where
        inward_label :
            (inward (λ s. contains s.label_symbols name) w.scopes w.current >>= λ found.
            match_option found (ok none) (λ s. ok (find s.label_symbols name)))
            ≡ match_option (get_elem? w.scopes w.current) (fail undefined_behaviour) (λ s.
              ok (if contains s.label_symbols name then find s.label_symbols name else none))
        inward_label = elim (Option-cases (get_elem? w.scopes w.current)) [
          | inl e ↦ rw e refl
          | inr (s, e) ↦ elim (Bool-cases (contains s.label_symbols name)) [
            | inl f ↦ rw (e, f) refl
            | inr f ↦ rw (e, f) refl
          ]
        ]
