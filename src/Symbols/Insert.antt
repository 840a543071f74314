-- ===== src/Symbols/Insert.antt =====
-- lib/semantics/symbols.cpp: the insert methods. A name that is taken is thrown as the symbol that
-- has it.
use enlightenedc.Prelude.{
  ℕ, Bool, true, false, not, ◌&&◌, Option, some, List, [], ◌∷◌, ◌++◌, ◌==◌, length, get_elem?, set,
  if◌then◌else◌, match_option,
}
use enlightenedc.Outcome.{internal_error, undefined_behaviour}
use enlightenedc.Symbols.Name.{Name, find, contains, erase, insert_or_assign}
use enlightenedc.Symbols.Scope.{
  Linkage, no_linkage, internal, external, LangLinkage, no_lang, c_lang, StorageDuration, auto,
  FunctionType, VarSymbol, FuncSymbol, Symbol, var, func, alias, type_symbol, label, Scope, Walker,
  Step, done, thrown, failed, is_global, locally_contains, scope_get, at_current, put_current,
}

pub record InsertVarArgs (V : Type 0) : Type 0 where
  pub name : Name
  pub var_type : ℕ
  pub val : Option V
  pub linkage : Linkage
  pub duration : StorageDuration

pub record InsertFuncArgs : Type 0 where
  pub name : Name
  pub signature : Option FunctionType
  pub has_body : Bool
  pub parameters : List ℕ
  pub linkage : Linkage

-- `linkages_are_compatible` at the two kinds of linkage.
unfoldable pub linkages_are_compatible : Linkage → Linkage → Bool
linkages_are_compatible mine no_linkage = true
linkages_are_compatible internal internal = true
linkages_are_compatible internal external = false
linkages_are_compatible no_linkage internal = false
linkages_are_compatible no_linkage external = false
linkages_are_compatible external internal = false
linkages_are_compatible external external = true

unfoldable pub lang_linkages_are_compatible : LangLinkage → LangLinkage → Bool
lang_linkages_are_compatible mine no_lang = true
lang_linkages_are_compatible no_lang c_lang = false
lang_linkages_are_compatible c_lang c_lang = true

-- `FunctionType::same_signature_as` of semantics/types.cpp.
unfoldable pub same_signature_as : FunctionType → FunctionType → Bool
same_signature_as f g = f.signature == g.signature

-- `FuncSymData::compatible_from`.
unfoldable pub compatible_from : FunctionType → Linkage → FunctionType → Linkage → Bool
unfolding same_signature_as linkages_are_compatible lang_linkages_are_compatible
compatible_from existtype linkage newtype newlink =
    same_signature_as existtype newtype
    && (linkages_are_compatible linkage newlink
        && lang_linkages_are_compatible existtype.lang_linkage newtype.lang_linkage)

-- `insert_alias`, for an aliasee of that name; a symbol of that name is moved to `shadowed`.
unfoldable pub alias_in : Scope → Name → ℕ → Scope
unfolding contains find erase insert_or_assign
alias_in s name fresh =
    match_option (find s.phys_symbols name)
      (record s { phys_symbols = insert_or_assign s.phys_symbols name fresh })
      (λ existing. record s {
        phys_symbols = insert_or_assign (erase s.phys_symbols name) name fresh;
        shadowed = existing ∷ s.shadowed;
      })

module _ {V : Type 0} where
  -- A new symbol, at the end of the list of all symbols.
  unfoldable pub own : Walker V → Symbol V → Walker V
  own w sym = record w { symbols = w.symbols ++ (sym ∷ []) }

  unfoldable pub var_symbol : Walker V → Scope → InsertVarArgs V → VarSymbol V
  unfolding is_global
  var_symbol w s args = record {
    name = args.name;
    scope = w.current;
    global = is_global s;
    var_type = args.var_type;
    value = args.val;
    funcparam = false;
    implicit = false;
    linkage = args.linkage;
    duration = args.duration;
  }

  unfoldable pub insert_var : Walker V → InsertVarArgs V → Step V ℕ
  unfolding at_current put_current own var_symbol contains find insert_or_assign
  insert_var w args = at_current w (λ s.
      match_option (find s.phys_symbols args.name)
        (done (length w.symbols) (
          put_current (own w (var (var_symbol w s args))) (record s {
            phys_symbols = insert_or_assign s.phys_symbols args.name (length w.symbols);
          })))
        (λ existing. thrown existing w))

  unfoldable pub insert_implicit : Walker V → InsertVarArgs V → Step V ℕ
  unfolding at_current put_current own var_symbol locally_contains scope_get insert_or_assign
  insert_implicit w args = at_current w (λ s.
      if locally_contains s args.name
      then match_option (scope_get s args.name) (failed undefined_behaviour)
          (λ existing. thrown existing w)
      else (if w.current == 0
          then failed internal_error
          else done (length w.symbols) (
              put_current
                (own w (
                  var (record (var_symbol w s args) {
                    linkage = no_linkage;
                    duration = auto;
                    implicit = true;
                  })))
                (record s {
                  implicits = insert_or_assign s.implicits args.name (length w.symbols);
                }))))

  unfoldable pub symbol_name : Symbol V → Name
  symbol_name (var v) = v.name
  symbol_name (func f) = f.name
  symbol_name (alias name scope global aliasee) = name
  symbol_name (type_symbol name scope global ty) = name
  symbol_name (label name scope global) = name

  unfoldable pub insert_alias : Walker V → ℕ → Step V ℕ
  unfolding at_current put_current own symbol_name alias_in is_global
  insert_alias w aliasee =
      match_option (get_elem? w.symbols aliasee) (failed undefined_behaviour) (λ target.
        at_current w (λ s. done (length w.symbols) (
          put_current (own w (alias (symbol_name target) w.current (is_global s) aliasee))
            (alias_in s (symbol_name target) (length w.symbols)))))

  -- `for (auto *param : …) param->set_funcparam(true)`
  unfoldable pub set_funcparam : List (Symbol V) → ℕ → List (Symbol V)
  set_funcparam symbols p = elim (get_elem? symbols p) [
    | some (var v) ↦ set symbols p (var (record v { funcparam = true }))
    | other ↦ symbols
  ]

  unfoldable pub set_funcparams : List (Symbol V) → List ℕ → List (Symbol V)
  unfolding set_funcparam
  set_funcparams symbols [] = symbols
  set_funcparams symbols (p ∷ ps) = set_funcparams (set_funcparam symbols p) ps

  -- A declaration `f` at `existing` becomes a definition.
  unfoldable pub define : Walker V → ℕ → FuncSymbol → InsertFuncArgs → Walker V
  unfolding set_funcparams
  define w existing f args = record w {
    symbols =
        set_funcparams
          (set w.symbols existing
            (func (record f { has_body = true; parameters = args.parameters })))
          args.parameters;
  }

  -- What becomes of a name that the function `f` has already.
  unfoldable pub reconcile : Walker V → ℕ → FuncSymbol → InsertFuncArgs → Step V ℕ
  unfolding same_signature_as compatible_from define
  reconcile w existing f args = match_option f.signature (thrown existing w) (λ existtype.
      match_option args.signature (thrown existing w) (λ newtype.
        if same_signature_as existtype newtype
        then (if not f.has_body && args.has_body
            then (if compatible_from existtype f.linkage newtype args.linkage
                then done existing (define w existing f args)
                else thrown existing w)
            else (if f.has_body && args.has_body
                then thrown existing w
                else (if compatible_from existtype f.linkage newtype args.linkage
                    then done existing w
                    else thrown existing w)))
        else thrown existing w))

  -- `existing->is_func()`
  unfoldable pub replace_func : Walker V → ℕ → Symbol V → InsertFuncArgs → Step V ℕ
  unfolding reconcile
  replace_func w existing (func f) args = reconcile w existing f args
  replace_func w existing (var v) args = thrown existing w
  replace_func w existing (alias name scope global aliasee) args = thrown existing w
  replace_func w existing (type_symbol name scope global ty) args = thrown existing w
  replace_func w existing (label name scope global) args = thrown existing w

  unfoldable pub func_symbol : Walker V → Scope → InsertFuncArgs → FuncSymbol
  unfolding is_global
  func_symbol w s args = record {
    name = args.name;
    scope = w.current;
    global = is_global s;
    signature = args.signature;
    has_body = args.has_body;
    parameters = args.parameters;
    linkage = args.linkage;
  }

  -- A function symbol asks its signature for the language linkage, which a null signature has not.
  unfoldable pub insert_func : Walker V → InsertFuncArgs → Step V ℕ
  unfolding at_current put_current own func_symbol replace_func find insert_or_assign
  insert_func w args = at_current w (λ s.
      match_option (find s.phys_symbols args.name)
        (match_option args.signature (failed undefined_behaviour) (λ signature.
          done (length w.symbols) (
            put_current (own w (func (func_symbol w s args))) (record s {
              phys_symbols = insert_or_assign s.phys_symbols args.name (length w.symbols);
            }))))
        (λ existing.
          match_option (get_elem? w.symbols existing) (failed undefined_behaviour)
            (λ sym. replace_func w existing sym args)))

  unfoldable pub insert_type : Walker V → Name → ℕ → Step V ℕ
  unfolding at_current put_current own find insert_or_assign is_global
  insert_type w name ty = at_current w (λ s.
      match_option (find s.type_symbols name)
        (done (length w.symbols) (
          put_current (own w (type_symbol name w.current (is_global s) ty))
            (record s { type_symbols = insert_or_assign s.type_symbols name (length w.symbols) })))
        (λ existing. thrown existing w))

  unfoldable pub insert_label : Walker V → Name → Step V ℕ
  unfolding at_current put_current own find insert_or_assign is_global
  insert_label w name = at_current w (λ s.
      match_option (find s.label_symbols name)
        (done (length w.symbols) (
          put_current (own w (label name w.current (is_global s))) (record s {
            label_symbols = insert_or_assign s.label_symbols name (length w.symbols);
          })))
        (λ existing. thrown existing w))

  -- `current = saved`, also before an exception is thrown on.
  unfoldable pub restore : ℕ → Step V ℕ → Step V ℕ
  restore saved (done sym w) = done sym (record w { current = saved })
  restore saved (thrown sym w) = thrown sym (record w { current = saved })
  restore saved (failed e) = failed e

  -- The `insert_…_at` methods.
  unfoldable pub insert_at : (Walker V → Step V ℕ) → Walker V → ℕ → Step V ℕ
  unfolding restore
  insert_at insert_in w at_scope = restore w.current (insert_in (record w { current = at_scope }))
