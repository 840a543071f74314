-- ===== src/Examples/Scopes.antt =====
-- Symbol tables at which the theorems on scopes and lookups apply.
use enlightenedc.Prelude.{
  ℕ, ◌+◌, ◌≡◌, refl, true, false, none, some, [], ◌∷◌, ◌==◌, List, length, get_elem?, ◌&&◌, not,
}
use enlightenedc.Outcome.{ok}
use enlightenedc.Symbols.Name.{Name, name_eq, find}
use enlightenedc.Symbols.Scope.{
  no_linkage, external, no_lang, auto, FunctionType, FuncSymbol, Symbol, var, func, Scope, Walker,
  Step, done, thrown, failed, new_scope, new_walker,
}
use enlightenedc.Symbols.Walk.{push_scope, pop_scope}
use enlightenedc.Symbols.Lookup.{lookup_var, lookup_func, lookup_type, lookup_label}
use enlightenedc.Symbols.Insert.{
  InsertVarArgs, InsertFuncArgs, insert_var, insert_func, var_symbol, compatible_from,
}
use enlightenedc.Symbols.Tree.{WellFormed}
use enlightenedc.Symbols.Reach.{
  variable, insert, Reachable, start, pushed, inserted, Reachable-WellFormed,
}
use enlightenedc.Symbols.Leave.{pop_scope-total}
use enlightenedc.Symbols.Nesting.{fresh_scope, pop_scope-push_scope}
use enlightenedc.Symbols.Resolve.{Encloses, visible_var, visible_func, visible_type, visible_label}
use enlightenedc.Symbols.Table.{lookups-visible}
use enlightenedc.Symbols.Insertion.{lookup_var-insert_var}
use enlightenedc.Symbols.Params.{add_parameter, add_default_param, params_well_ordered, has_value}
use enlightenedc.Symbols.Defaults.{params_well_ordered-add}
use enlightenedc.Symbols.Reconcile.{merged, insert_func-merged}

abbrev x : Name
x = 120 ∷ []

abbrev x_args : InsertVarArgs ℕ
x_args = record { name = x; var_type = 7; val = none; linkage = no_linkage; duration = auto }

abbrev empty : Walker ℕ
empty = new_walker

-- `x` in the global scope and a function scope inside it.
abbrev global_scope : Scope
global_scope = record {
  outer = none;
  assoc = none;
  id = 0;
  phys_symbols = (x, 0) ∷ [];
  implicits = [];
  type_symbols = [];
  label_symbols = [];
  shadowed = [];
  nested = 1 ∷ [];
  idx_in_nested = none;
}

abbrev inner_scope : Scope
inner_scope = new_scope none (some 0) 1 (some 0)

unfoldable after : {A : Type 0} → Step ℕ A → Walker ℕ
after (done a w) = w
after (thrown p w) = w
after (failed e) = new_walker

unfoldable declared : Walker ℕ
unfolding after insert_var
declared = after (insert_var new_walker x_args)

unfoldable inside : Walker ℕ
unfolding after push_scope declared
inside = after (push_scope declared none)

inside-Reachable : Reachable inside
unfolding inside declared after push_scope insert_var insert new_walker
inside-Reachable = pushed none (inserted (variable x_args) (start refl) refl) refl

-- The variable of the global scope is seen from the inner one.
inside_finds : lookup_var inside x false ≡ ok (some 0)
unfolding inside declared after push_scope insert_var new_walker lookup_var name_eq
inside_finds = refl

lookups_example :
    (path : List Scope) × Encloses inside.scopes inside.current path
    × (lookup_var inside x false ≡ ok (visible_var inside.symbols path x))
    × (lookup_func inside x false ≡ ok (visible_func inside.symbols path x))
    × (lookup_type inside x false ≡ ok (visible_type path x))
    × (lookup_label inside x false ≡ ok (visible_label path x))
lookups_example = lookups-visible inside x inside-Reachable

WellFormed_example : WellFormed inside
WellFormed_example = Reachable-WellFormed inside inside-Reachable

inside-WellFormed : WellFormed inside
inside-WellFormed = Reachable-WellFormed inside inside-Reachable

pop_scope_example : (w : Walker ℕ) × (pop_scope inside ≡ done tt w) × WellFormed w
pop_scope_example = pop_scope-total inside inside-WellFormed

push_pop_example :
    (v u : Walker ℕ) × (push_scope inside none ≡ done tt v)
    × (get_elem? v.scopes v.current ≡ some (fresh_scope inside none))
    × (pop_scope v ≡ done tt u)
    × (u.current ≡ inside.current)
    × (u.prev_scope_idxs ≡ inside.prev_scope_idxs)
    × (u.next_scope_idx ≡ inside.next_scope_idx + 1)
unfolding inside declared after push_scope insert_var new_walker
push_pop_example = pop_scope-push_scope inside inner_scope none inside-WellFormed refl refl

abbrev outer_scope : Scope
outer_scope = record global_scope { nested = [] }

-- A second walker at the global scope of the same table.
unfoldable second : Walker ℕ
second = record inside { current = 0; next_scope_idx = 0; prev_scope_idxs = [] }

insert_var_example :
    ((p : ℕ)
      → find outer_scope.phys_symbols x ≡ some p
      → insert_var declared x_args ≡ thrown p declared)
    × (find outer_scope.phys_symbols x ≡ none
        → (w' : Walker ℕ) × (insert_var declared x_args ≡ done (length declared.symbols) w')
          × (lookup_var w' x true ≡ ok (some (length declared.symbols)))
          × (lookup_func w' x true ≡ ok none)
          × (get_elem? w'.symbols (length declared.symbols)
              ≡ some (var (var_symbol declared outer_scope x_args))))
unfolding declared after insert_var new_walker
insert_var_example = lookup_var-insert_var declared x_args outer_scope true refl

abbrev x_symbol : Symbol ℕ
x_symbol = var (var_symbol new_walker (new_scope none none 0 none) x_args)

abbrev f_type : FunctionType
f_type = record { signature = 5; lang_linkage = no_lang }

abbrev f_decl : InsertFuncArgs
f_decl = record {
  name = x;
  signature = some f_type;
  has_body = false;
  parameters = [];
  linkage = external;
}

abbrev f_def : InsertFuncArgs
f_def = record f_decl { has_body = true }

abbrev f_symbol : FuncSymbol
f_symbol = record {
  name = x;
  scope = 0;
  global = true;
  signature = some f_type;
  has_body = false;
  parameters = [];
  linkage = external;
}

unfoldable with_function : Walker ℕ
unfolding after insert_func
with_function = after (insert_func new_walker f_decl)

insert_func_example :
    ((compatible_from f_type external f_type external && not (false && true)) ≡ false
      → insert_func with_function f_def ≡ thrown 0 with_function)
    × ((compatible_from f_type external f_type external && not (false && true)) ≡ true
        → (w' : Walker ℕ) × (insert_func with_function f_def ≡ done 0 w')
          × (get_elem? w'.symbols 0 ≡ some (func (merged f_symbol f_def)))
          × (w'.scopes ≡ with_function.scopes)
          × (w'.current ≡ with_function.current))
unfolding with_function after insert_func new_walker name_eq
insert_func_example =
    insert_func-merged with_function f_def outer_scope 0 f_symbol f_type f_type refl refl refl refl
      refl

add_parameter_example :
    (add_parameter {V = ℕ} (none ∷ []) none ≡ ok (none ∷ (none ∷ []))
      → params_well_ordered {V = ℕ} (none ∷ (none ∷ [])) ≡ true)
    × (add_default_param {V = ℕ} ◌==◌ (none ∷ []) none 3 ≡ ok (none ∷ (none ∷ []))
        → params_well_ordered {V = ℕ} (none ∷ (none ∷ [])) ≡ true)
unfolding params_well_ordered has_value
add_parameter_example = params_well_ordered-add ◌==◌ (none ∷ []) (none ∷ (none ∷ [])) none 3 refl
