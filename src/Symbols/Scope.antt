-- ===== src/Symbols/Scope.antt =====
-- The data of the symbol table. A `Scope *` is an index into the list of all scopes and a
-- `Symbol *` one into the list of all symbols, so that aliasing is equality of numbers. A
-- `types::Type *` is an address. Source locations are dropped. `V` stands for `eval::Value`.
use enlightenedc.Prelude.{
  ℕ, Bool, true, false, ◌||◌, Option, none, some, List, [], ◌∷◌, get_elem?, set, if◌then◌else◌,
  match_option,
}
use enlightenedc.Outcome.{Fault, undefined_behaviour}
use enlightenedc.Symbols.Name.{Name, StringMap, find, contains}

pub data Linkage : Type 0 where
  no_linkage internal external : Linkage

pub data LangLinkage : Type 0 where
  no_lang c_lang : LangLinkage

pub data StorageDuration : Type 0 where
  auto static : StorageDuration

-- What a function type tells the symbol table: the address of its shared signature and its
-- language linkage.
pub record FunctionType : Type 0 where
  pub signature : ℕ
  pub lang_linkage : LangLinkage

pub record VarSymbol (V : Type 0) : Type 0 where
  pub name : Name
  pub scope : ℕ
  pub global : Bool
  pub var_type : ℕ
  pub value : Option V
  pub funcparam : Bool
  pub implicit : Bool
  pub linkage : Linkage
  pub duration : StorageDuration

pub record FuncSymbol : Type 0 where
  pub name : Name
  pub scope : ℕ
  pub global : Bool
  pub signature : Option FunctionType
  pub has_body : Bool
  pub parameters : List ℕ
  pub linkage : Linkage

pub data Symbol (V : Type 0) : Type 0 where
  var : VarSymbol V → Symbol V
  func : FuncSymbol → Symbol V
  -- name, scope, whether it is global, and the aliasee
  alias : Name → ℕ → Bool → ℕ → Symbol V
  -- name, scope, whether it is global, and the type
  type_symbol : Name → ℕ → Bool → ℕ → Symbol V
  -- name, scope and whether it is global
  label : Name → ℕ → Bool → Symbol V

pub record Scope : Type 0 where
  pub outer : Option ℕ
  pub assoc : Option ℕ
  pub id : ℕ
  pub phys_symbols : StringMap ℕ
  pub implicits : StringMap ℕ
  pub type_symbols : StringMap ℕ
  pub label_symbols : StringMap ℕ
  pub shadowed : List ℕ
  pub nested : List ℕ
  -- `none` is -1
  pub idx_in_nested : Option ℕ

-- A walker and the table that it walks.
pub record Walker (V : Type 0) : Type 0 where
  pub scopes : List Scope
  pub symbols : List (Symbol V)
  pub current : ℕ
  pub next_id : ℕ
  pub next_scope_idx : ℕ
  pub prev_scope_idxs : List ℕ

-- How a method of the walker ends: it returns, it throws a `Symbol *`, or it fails.
pub data Step (V A : Type 0) : Type 0 where
  done : A → Walker V → Step V A
  thrown : ℕ → Walker V → Step V A
  failed : Fault → Step V A

-- `Scope(assoc, outer, id, idx)` and `Scope(assoc, outer, id)`.
unfoldable pub new_scope : Option ℕ → Option ℕ → ℕ → Option ℕ → Scope
new_scope assoc outer id idx = record {
  outer = outer;
  assoc = assoc;
  id = id;
  phys_symbols = [];
  implicits = [];
  type_symbols = [];
  label_symbols = [];
  shadowed = [];
  nested = [];
  idx_in_nested = idx;
}

-- A walker on a fresh `SymbolTable`.
unfoldable pub new_walker : {V : Type 0} → Walker V
unfolding new_scope
new_walker = record {
  scopes = new_scope none none 0 none ∷ [];
  symbols = [];
  current = 0;
  next_id = 1;
  next_scope_idx = 0;
  prev_scope_idxs = [];
}

unfoldable pub is_global : Scope → Bool
is_global s = elim s.idx_in_nested [ none ↦ true | some i ↦ false ]

unfoldable pub locally_contains : Scope → Name → Bool
unfolding contains
locally_contains s name = contains s.phys_symbols name || contains s.implicits name

-- `Scope::get`: explicit symbols come before implicit ones.
unfoldable pub scope_get : Scope → Name → Option ℕ
unfolding contains find
scope_get s name =
    if contains s.phys_symbols name
    then find s.phys_symbols name
    else (if contains s.implicits name then find s.implicits name else none)

-- `Scope::set_assoc`.
unfoldable pub set_assoc : Scope → ℕ → Bool → Scope
set_assoc s sym override =
    match_option s.assoc (record s { assoc = some sym })
      (λ f. if override then record s { assoc = some sym } else s)

module _ {V A : Type 0} where
  -- A method that works on `*current`.
  unfoldable pub at_current : Walker V → (Scope → Step V A) → Step V A
  at_current w k = match_option (get_elem? w.scopes w.current) (failed undefined_behaviour) k

module _ {V : Type 0} where
  -- `*current = s`.
  unfoldable pub put_current : Walker V → Scope → Walker V
  put_current w s = record w { scopes = set w.scopes w.current s }

  -- `SymbolTableWalker::tie_current_to`.
  unfoldable pub tie_current_to : Walker V → ℕ → Bool → Step V (Unit {0})
  unfolding at_current put_current set_assoc
  tie_current_to w sym override =
      at_current w (λ s. done tt (put_current w (set_assoc s sym override)))
