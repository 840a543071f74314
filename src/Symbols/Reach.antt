-- ===== src/Symbols/Reach.antt =====
-- The states that a walker on a fresh symbol table comes to by its methods.
use enlightenedc.Prelude.{
  ℕ, zero, suc, ◌≡◌, refl, sym, ap, subst, ◌∙◌, Bool, Option, none, some, [], ◌∷◌, get_elem?, arith,
  some_eq,
}
use enlightenedc.Symbols.Name.{Name}
use enlightenedc.Symbols.Scope.{Walker, Step, done, thrown, tie_current_to, new_scope, new_walker}
use enlightenedc.Symbols.Walk.{push_scope, enter_scope, pop_scope, reset}
use enlightenedc.Symbols.Insert.{
  InsertVarArgs, InsertFuncArgs, insert_var, insert_implicit, insert_alias, insert_func,
  insert_type, insert_label, insert_at,
}
use enlightenedc.Symbols.Tree.{Shape, Tree, WellFormed, Depth, at_root, inside}
use enlightenedc.Symbols.Place.{WellFormed-SamePlace, Stays}
use enlightenedc.Symbols.Enter.{WellFormed-push_scope, WellFormed-enter_scope}
use enlightenedc.Symbols.Leave.{WellFormed-pop_scope, WellFormed-reset}
use enlightenedc.Symbols.Place.{
  Stays-insert_var, Stays-insert_implicit, Stays-insert_alias, Stays-insert_func, Stays-insert_type,
  Stays-insert_label, Stays-insert_at, Stays-tie_current_to,
}

abbrev alone : Shape
alone = record { outer = none; nested = []; id = 0 }

alone_only : (i : ℕ) (s : Shape) → get_elem? (alone ∷ []) i ≡ some s → (i ≡ 0) × (alone ≡ s)
alone_only zero s h = (refl, some_eq h)
alone_only (suc i) s h = cc

Tree-alone : Tree (alone ∷ [])
Tree-alone = record {
  root = (alone, refl, refl);
  rooted = λ i s p q. let (e, f) = alone_only i s p in e;
  older = λ i s o p q.
      let (e, f) = alone_only i s p in let bad = ap (λ (z : Shape). z.outer) f ∙ q in cc;
  child = λ i s k j p q.
      let (e, f) = alone_only i s p in
      let bad = ap (λ (z : Shape). get_elem? z.nested k) f ∙ q in cc;
  named = λ i s p. let (e, f) = alone_only i s p in sym (ap (λ (z : Shape). z.id) f) ∙ sym e;
}

Depth-alone : (d : ℕ) → Depth (alone ∷ []) 0 d → d ≡ 0
Depth-alone d (at_root s p q) = refl
Depth-alone (suc d) (inside s j p q x) =
    let (e, f) = alone_only 0 s p in let bad = ap (λ (z : Shape). z.outer) f ∙ q in cc

-- The calls that insert a symbol, in the current scope or in a given one.
pub data Insertion (V : Type 0) : Type 0 where
  variable : InsertVarArgs V → Insertion V
  implicit_variable : InsertVarArgs V → Insertion V
  alias_of : ℕ → Insertion V
  function : InsertFuncArgs → Insertion V
  type_named : Name → ℕ → Insertion V
  label_named : Name → Insertion V
  placed : ℕ → Insertion V → Insertion V

module _ {V : Type 0} where
  unfoldable pub insert : Insertion V → Walker V → Step V ℕ
  insert (variable args) w = insert_var w args
  insert (implicit_variable args) w = insert_implicit w args
  insert (alias_of p) w = insert_alias w p
  insert (function args) w = insert_func w args
  insert (type_named name ty) w = insert_type w name ty
  insert (label_named name) w = insert_label w name
  insert (placed at_scope i) w = insert_at (insert i) w at_scope

  pub Stays-insert : (i : Insertion V) (w : Walker V) → Stays w (insert i w)
  unfolding insert
  Stays-insert (variable args) w = Stays-insert_var w args
  Stays-insert (implicit_variable args) w = Stays-insert_implicit w args
  Stays-insert (alias_of p) w = Stays-insert_alias w p
  Stays-insert (function args) w = Stays-insert_func w args
  Stays-insert (type_named name ty) w = Stays-insert_type w name ty
  Stays-insert (label_named name) w = Stays-insert_label w name
  Stays-insert (placed at_scope i) w = Stays-insert_at (insert i) w at_scope (λ v. Stays-insert i v)

  pub data Reachable : Walker V → Type 0 where
    start : {w : Walker V} → w ≡ new_walker → Reachable w
    pushed :
        {w w' : Walker V} (assoc : Option ℕ)
        → Reachable w
        → push_scope w assoc ≡ done tt w'
        → Reachable w'
    descended : {w w' : Walker V} → Reachable w → enter_scope w ≡ done tt w' → Reachable w'
    popped : {w w' : Walker V} → Reachable w → pop_scope w ≡ done tt w' → Reachable w'
    rewound : {w w' : Walker V} → Reachable w → w' ≡ reset w → Reachable w'
    tied :
        {w w' : Walker V} (f : ℕ) (override : Bool)
        → Reachable w
        → tie_current_to w f override ≡ done tt w'
        → Reachable w'
    inserted :
        {w w' : Walker V} (i : Insertion V) {p : ℕ}
        → Reachable w
        → insert i w ≡ done p w'
        → Reachable w'
    refused :
        {w w' : Walker V} (i : Insertion V) {p : ℕ}
        → Reachable w
        → insert i w ≡ thrown p w'
        → Reachable w'

  WellFormed-new_walker : WellFormed {V = V} new_walker
  unfolding new_walker new_scope
  WellFormed-new_walker = record {
    tree = Tree-alone;
    current = omega arith;
    depth = λ d x. omega (arith, Depth-alone d x);
    fresh = refl;
  }

  -- Whatever methods a walker on a fresh table runs, its scopes form a tree under the global scope
  -- with unique ids, `current` is one of them, and there are enough saved indices to leave them all.
  pub Reachable-WellFormed : (w : Walker V) → Reachable w → WellFormed w
  Reachable-WellFormed w (start e) = subst WellFormed (sym e) WellFormed-new_walker
  Reachable-WellFormed w (pushed {w = v} assoc r h) =
      WellFormed-push_scope v w assoc (Reachable-WellFormed v r) h
  Reachable-WellFormed w (descended {w = v} r h) =
      WellFormed-enter_scope v w (Reachable-WellFormed v r) h
  Reachable-WellFormed w (popped {w = v} r h) =
      WellFormed-pop_scope v w (Reachable-WellFormed v r) h
  Reachable-WellFormed w (rewound {w = v} r h) =
      subst WellFormed (sym h) (WellFormed-reset v (Reachable-WellFormed v r))
  Reachable-WellFormed w (tied {w = v} f override r h) =
      WellFormed-SamePlace (Reachable-WellFormed v r)
        (subst (Stays v) h (Stays-tie_current_to v f override))
  Reachable-WellFormed w (inserted {w = v} i r h) =
      WellFormed-SamePlace (Reachable-WellFormed v r) (subst (Stays v) h (Stays-insert i v))
  Reachable-WellFormed w (refused {w = v} i r h) =
      WellFormed-SamePlace (Reachable-WellFormed v r) (subst (Stays v) h (Stays-insert i v))
