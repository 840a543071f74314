-- ===== src/Symbols/Lookup.antt =====
-- lib/semantics/symbols.cpp: the lookup methods. A result `none` is the null pointer. The loops
-- outwards run on fuel; as an outer scope is older than the scopes inside it, the number of scopes
-- is enough. A loop that used it up would be an endless one without effects, undefined in C++.
use enlightenedc.Prelude.{
  ℕ, zero, suc, Bool, true, false, ◌||◌, Option, none, some, List, ◌==◌, length, get_elem?,
  if◌then◌else◌, match_option,
}
use enlightenedc.Outcome.{Outcome, ok, fail, internal_error, undefined_behaviour, ◌>>=◌}
use enlightenedc.Symbols.Name.{Name, find, contains}
use enlightenedc.Symbols.Scope.{
  Scope, Walker, Symbol, var, func, alias, type_symbol, label, locally_contains, scope_get,
}

-- One round of a loop: whether the scope `s` has the name, whether it is a boundary, and the rounds
-- that follow.
unfoldable pub outward_at :
    Bool → Bool → Scope → ℕ → (ℕ → Outcome (Option Scope)) → Outcome (Option Scope)
outward_at true boundary s cur again = ok (some s)
outward_at false true s cur again = ok none
outward_at false false s cur again =
    match_option s.outer (if cur == 0 then ok none else fail internal_error) again

-- `while (!contains(my_current)) { … my_current = my_current->outer; }`; at a `boundary` the loop
-- returns null.
unfoldable pub outward :
    (Scope → Bool) → (Scope → Bool) → ℕ → List Scope → ℕ → Outcome (Option Scope)
unfolding outward_at
outward has boundary zero scopes cur = fail undefined_behaviour
outward has boundary (suc fuel) scopes cur =
    match_option (get_elem? scopes cur) (fail undefined_behaviour)
      (λ s. outward_at (has s) (boundary s) s cur (outward has boundary fuel scopes))

-- The lookup in the current scope alone.
unfoldable pub inward : (Scope → Bool) → List Scope → ℕ → Outcome (Option Scope)
inward has scopes cur =
    match_option (get_elem? scopes cur) (fail undefined_behaviour)
      (λ s. if has s then ok (some s) else ok none)

unfoldable pub anywhere : Scope → Bool
anywhere s = false

unfoldable pub is_function_scope : Scope → Bool
is_function_scope s = elim s.assoc [ none ↦ false | some f ↦ true ]

-- `->as_varsym()` and `->as_funcsym()`, which only the classes of those names override.
module _ {V : Type 0} where
  unfoldable pub is_var : Symbol V → Bool
  is_var (var v) = true
  is_var (func f) = false
  is_var (alias name scope global aliasee) = false
  is_var (type_symbol name scope global ty) = false
  is_var (label name scope global) = false

  unfoldable pub is_func : Symbol V → Bool
  is_func (var v) = false
  is_func (func f) = true
  is_func (alias name scope global aliasee) = false
  is_func (type_symbol name scope global ty) = false
  is_func (label name scope global) = false

  unfoldable pub narrow : (Symbol V → Bool) → Walker V → Option ℕ → Outcome (Option ℕ)
  narrow test w found = match_option found (fail undefined_behaviour) (λ p.
      match_option (get_elem? w.symbols p) (fail undefined_behaviour)
        (λ sym. ok (if test sym then some p else none)))

  unfoldable pub search : (Scope → Bool) → (Scope → Bool) → Walker V → Bool → Outcome (Option Scope)
  unfolding outward inward
  search has boundary w current_only =
      if current_only
      then inward has w.scopes w.current
      else outward has boundary (length w.scopes) w.scopes w.current

  unfoldable pub lookup_var : Walker V → Name → Bool → Outcome (Option ℕ)
  unfolding search locally_contains scope_get narrow is_var anywhere
  lookup_var w name current_only = do
    found ← search (λ s. locally_contains s name) anywhere w current_only
    match_option found (ok none) (λ s. narrow is_var w (scope_get s name))

  unfoldable pub lookup_func : Walker V → Name → Bool → Outcome (Option ℕ)
  unfolding search contains find narrow is_func anywhere
  lookup_func w name current_only = do
    found ← search (λ s. contains s.phys_symbols name) anywhere w current_only
    match_option found (ok none) (λ s. narrow is_func w (find s.phys_symbols name))

  unfoldable pub lookup_type : Walker V → Name → Bool → Outcome (Option ℕ)
  unfolding search contains find anywhere
  lookup_type w name current_only = do
    found ← search (λ s. contains s.type_symbols name) anywhere w current_only
    match_option found (ok none) (λ s. ok (find s.type_symbols name))

  unfoldable pub lookup_label : Walker V → Name → Bool → Outcome (Option ℕ)
  unfolding search contains find is_function_scope
  lookup_label w name current_only = do
    found ←
        search (λ s. contains s.label_symbols name) is_function_scope w
          (current_only || (w.current == 0))
    match_option found (ok none) (λ s. ok (find s.label_symbols name))

  -- The lookups from a given scope, which put `current` back.
  unfoldable pub lookup_from :
      (Walker V → Name → Bool → Outcome (Option ℕ))
      → Walker V
      → ℕ
      → Name
      → Bool
      → Outcome (Option ℕ)
  lookup_from lookup_in w from name current_only =
      lookup_in (record w { current = from }) name current_only

  -- `lookup`: a variable, else a function, else a type, else a label.
  unfoldable pub lookup : Walker V → Name → Bool → Outcome (Option ℕ)
  unfolding lookup_var lookup_func lookup_type lookup_label
  lookup w name current_only = do
    v ← lookup_var w name current_only
    match_option v
        (do
          f ← lookup_func w name current_only
          match_option f
              (do
                t ← lookup_type w name current_only
                match_option t (lookup_label w name current_only) (λ p. ok (some p)))
              (λ p. ok (some p)))
        (λ p. ok (some p))
