-- ===== src/Symbols/Insertion.antt =====
-- What a lookup finds after an insertion.
use enlightenedc.Prelude.{
  ℕ, ◌≡◌, refl, sym, ◌∙◌, Bool, true, false, none, some, List, [], ◌∷◌, length, get_elem?,
  Option-cases, inl, inr, if◌then◌else◌, get_elem?-set_self,
}
use enlightenedc.Outcome.{ok}
use enlightenedc.Symbols.Name.{
  Name, find, contains, contains-found, insert_or_assign, erase, find-insert, name_eq_self,
}
use enlightenedc.Symbols.Scope.{
  Scope, Walker, Symbol, done, thrown, at_current, put_current, locally_contains, scope_get, var,
  alias, is_global,
}
use enlightenedc.Symbols.Insert.{
  InsertVarArgs, insert_var, insert_alias, own, var_symbol, alias_in, symbol_name,
}
use enlightenedc.Symbols.Lookup.{
  outward, outward_at, inward, anywhere, is_var, is_func, narrow, search, lookup_var, lookup_func,
}
use enlightenedc.Symbols.Tree.{get_elem?-bound, get_elem?-last}

find_inserted :
    (m : List (Name × ℕ)) (name : Name) (p : ℕ) → find (insert_or_assign m name p) name ≡ some p
find_inserted m name p = find-insert m name name p ∙ rw (name_eq_self name) refl

alias_here : (s : Scope) (name : Name) (p : ℕ) → find (alias_in s name p).phys_symbols name ≡ some p
unfolding alias_in
alias_here s name p = elim (Option-cases (find s.phys_symbols name)) [
  | inl e ↦ rw e (find_inserted s.phys_symbols name p)
  | inr (q, e) ↦ rw e (find_inserted (erase s.phys_symbols name) name p)
]

module _ {V : Type 0} where
  put_there :
      (w : Walker V) {s : Scope} (s' : Scope)
      → get_elem? w.scopes w.current ≡ some s
      → get_elem? (put_current w s').scopes w.current ≡ some s'
  unfolding put_current
  put_there w s' p = get_elem?-set_self w.scopes w.current s' (get_elem?-bound w.scopes w.current p)

  -- A lookup whose name the current scope has looks no further.
  search_here :
      (has boundary : Scope → Bool) (w : Walker V) {s : Scope} (b : Bool)
      → get_elem? w.scopes w.current ≡ some s
      → has s ≡ true
      → search has boundary w b ≡ ok (some s)
  unfolding search inward outward outward_at
  search_here has boundary w {s = s} true p e = rw (p, e) refl
  search_here has boundary w {s = s} false p e = by_length w.scopes w.current p
    where
      by_length :
          (scopes : List Scope) (i : ℕ)
          → get_elem? scopes i ≡ some s
          → outward has boundary (length scopes) scopes i ≡ ok (some s)
      by_length [] i q = cc
      by_length (t ∷ scopes) i q = rw (q, e) refl

  -- The explicit symbol of the current scope, narrowed.
  lookup_var_here :
      (w : Walker V) {s : Scope} (name : Name) (b : Bool) {p : ℕ} {sym : Symbol V}
      → get_elem? w.scopes w.current ≡ some s
      → find s.phys_symbols name ≡ some p
      → get_elem? w.symbols p ≡ some sym
      → lookup_var w name b ≡ ok (if is_var sym then some p else none)
  unfolding lookup_var locally_contains scope_get narrow
  lookup_var_here w {s} name b h e f =
      rw
        (search_here (λ t. locally_contains t name) anywhere w b h
          (rw (contains-found s.phys_symbols name e) refl))
        (rw (contains-found s.phys_symbols name e, e, f) refl)

  lookup_func_here :
      (w : Walker V) {s : Scope} (name : Name) (b : Bool) {p : ℕ} {sym : Symbol V}
      → get_elem? w.scopes w.current ≡ some s
      → find s.phys_symbols name ≡ some p
      → get_elem? w.symbols p ≡ some sym
      → lookup_func w name b ≡ ok (if is_func sym then some p else none)
  unfolding lookup_func narrow
  lookup_func_here w {s} name b h e f =
      rw
        (search_here (λ t. contains t.phys_symbols name) anywhere w b h
          (contains-found s.phys_symbols name e))
        (rw (e, f) refl)

  -- The walker after `sym` went into the explicit symbols of the current scope `s`.
  abbrev pub with_phys : Walker V → Scope → Name → Symbol V → Walker V
  with_phys w s name sym =
      put_current (own w sym)
        (record s { phys_symbols = insert_or_assign s.phys_symbols name (length w.symbols) })

  insert_var_taken :
      (w : Walker V) (args : InsertVarArgs V) {s : Scope} (p : ℕ)
      → get_elem? w.scopes w.current ≡ some s
      → find s.phys_symbols args.name ≡ some p
      → insert_var w args ≡ thrown p w
  unfolding insert_var at_current
  insert_var_taken w args p h e = rw (h, e) refl

  insert_var_free :
      (w : Walker V) (args : InsertVarArgs V) {s : Scope}
      → get_elem? w.scopes w.current ≡ some s
      → find s.phys_symbols args.name ≡ none
      → insert_var w args
        ≡ done (length w.symbols) (with_phys w s args.name (var (var_symbol w s args)))
  unfolding insert_var at_current
  insert_var_free w args h e = rw (h, e) refl

  -- The lookups of a name that has just been inserted.
  inserted_here :
      (w : Walker V) {s : Scope} (name : Name) (sym : Symbol V) (b : Bool)
      → get_elem? w.scopes w.current ≡ some s
      → (lookup_var (with_phys w s name sym) name b
          ≡ ok (if is_var sym then some (length w.symbols) else none))
        × (lookup_func (with_phys w s name sym) name b
            ≡ ok (if is_func sym then some (length w.symbols) else none))
        × (get_elem? (with_phys w s name sym).symbols (length w.symbols) ≡ some sym)
  unfolding own put_current
  inserted_here w {s} name sym b h =
      let there =
        put_there (own w sym)
          (record s { phys_symbols = insert_or_assign s.phys_symbols name (length w.symbols) }) h in
      let found = find_inserted s.phys_symbols name (length w.symbols) in
      let at_end = get_elem?-last w.symbols sym in
      (
        lookup_var_here (with_phys w s name sym) name b there found at_end,
        lookup_func_here (with_phys w s name sym) name b there found at_end,
        at_end,
      )

  -- `insert_var` throws the symbol that has the name in the current scope's explicit symbols and
  -- changes nothing; if there is none, the variable is inserted as asked, and the lookups of the
  -- name, in the current scope alone or not, find it and no function.
  pub lookup_var-insert_var :
      (w : Walker V) (args : InsertVarArgs V) (s : Scope) (b : Bool)
      → get_elem? w.scopes w.current ≡ some s
      → ((p : ℕ) → find s.phys_symbols args.name ≡ some p → insert_var w args ≡ thrown p w)
        × (find s.phys_symbols args.name ≡ none
            → (w' : Walker V) × (insert_var w args ≡ done (length w.symbols) w')
              × (lookup_var w' args.name b ≡ ok (some (length w.symbols)))
              × (lookup_func w' args.name b ≡ ok none)
              × (get_elem? w'.symbols (length w.symbols) ≡ some (var (var_symbol w s args))))
  unfolding is_var is_func
  lookup_var-insert_var w args s b h = (
    λ p e. insert_var_taken w args p h e,
    λ e.
        let (v, f, k) = inserted_here w args.name (var (var_symbol w s args)) b h in
        (with_phys w s args.name (var (var_symbol w s args)), insert_var_free w args h e, v, f, k),
  )

  insert_alias-eq :
      (w : Walker V) (aliasee : ℕ) {s : Scope} {target : Symbol V}
      → get_elem? w.scopes w.current ≡ some s
      → get_elem? w.symbols aliasee ≡ some target
      → insert_alias w aliasee
        ≡ done (length w.symbols) (
            put_current
              (own w (alias (symbol_name target) w.current (is_global s) aliasee))
              (alias_in s (symbol_name target) (length w.symbols)))
  unfolding insert_alias at_current
  insert_alias-eq w aliasee h e = rw (e, h) refl

  -- After `insert_alias` the name is hidden: neither the lookup of a variable nor that of a
  -- function finds anything, whatever the aliasee is.
  pub lookup_var-insert_alias :
      (w : Walker V) (aliasee : ℕ) (s : Scope) (target : Symbol V) (b : Bool)
      → get_elem? w.scopes w.current ≡ some s
      → get_elem? w.symbols aliasee ≡ some target
      → (w' : Walker V) × (insert_alias w aliasee ≡ done (length w.symbols) w')
        × (lookup_var w' (symbol_name target) b ≡ ok none)
        × (lookup_func w' (symbol_name target) b ≡ ok none)
  unfolding own put_current is_var is_func
  lookup_var-insert_alias w aliasee s target b h e =
      let sym = alias (symbol_name target) w.current (is_global s) aliasee in
      let after = put_current (own w sym) (alias_in s (symbol_name target) (length w.symbols)) in
      let there = put_there (own w sym) (alias_in s (symbol_name target) (length w.symbols)) h in
      let found = alias_here s (symbol_name target) (length w.symbols) in
      let at_end = get_elem?-last w.symbols sym in
      (
        after,
        insert_alias-eq w aliasee h e,
        lookup_var_here after (symbol_name target) b there found at_end,
        lookup_func_here after (symbol_name target) b there found at_end,
      )
