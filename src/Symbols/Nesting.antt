-- ===== src/Symbols/Nesting.antt =====
-- How entering and leaving scopes fit together.
use enlightenedc.Prelude.{
  ℕ, ◌+◌, ◌≡◌, refl, sym, ap, subst, ◌∙◌, ◌<◌, Option, some, [], ◌∷◌, ◌++◌, length, get_elem?, set,
  arith, length-set, get_elem?-set_self,
}
use enlightenedc.Symbols.Scope.{Scope, Walker, done, new_scope, put_current}
use enlightenedc.Symbols.Walk.{push_scope, enter_scope, pop_scope, reset, add_scope}
use enlightenedc.Symbols.Tree.{
  WellFormed, shape, shapes, get_elem?-some, get_elem?-bound, get_elem?-append, get_elem?-last,
  get_elem?-shapes, length-shapes,
}
use enlightenedc.Symbols.Enter.{entered, enter_scope-eq, push_scope-eq}
use enlightenedc.Symbols.Leave.{left, pop_scope-eq}

-- The scope that `push_scope` makes.
abbrev pub fresh_scope : {V : Type 0} → Walker V → Option ℕ → Scope
fresh_scope w assoc = new_scope assoc (some w.current) w.next_id (some w.next_scope_idx)

abbrev parent : {V : Type 0} → Walker V → Scope → Scope
parent w s = record s { nested = s.nested ++ (length w.scopes ∷ []) }

module _ {V : Type 0} (w : Walker V) {s : Scope} (assoc : Option ℕ) where
  module _ (p : get_elem? w.scopes w.current ≡ some s) where
    parent_there : get_elem? (add_scope w s assoc).scopes w.current ≡ some (parent w s)
    unfolding add_scope put_current
    parent_there =
        get_elem?-append (set w.scopes w.current (parent w s)) (fresh_scope w assoc ∷ []) w.current
          (get_elem?-set_self w.scopes w.current (parent w s)
            (get_elem?-bound w.scopes w.current p))

    fresh_there :
        get_elem? (add_scope w s assoc).scopes (length w.scopes) ≡ some (fresh_scope w assoc)
    unfolding add_scope put_current
    fresh_there =
        subst
          (λ k.
            get_elem? (set w.scopes w.current (parent w s) ++ (fresh_scope w assoc ∷ [])) k
            ≡ some (fresh_scope w assoc))
          (length-set w.scopes w.current (parent w s))
          (get_elem?-last (set w.scopes w.current (parent w s)) (fresh_scope w assoc))

    push_scope-fresh :
        w.next_scope_idx ≡ length s.nested
        → push_scope w assoc ≡ done tt (entered (add_scope w s assoc) (length w.scopes))
    unfolding add_scope put_current
    push_scope-fresh e =
        push_scope-eq w assoc p
        ∙ enter_scope-eq (add_scope w s assoc) parent_there (
            subst (λ k. get_elem? (s.nested ++ (length w.scopes ∷ [])) k ≡ some (length w.scopes))
              (sym e) (get_elem?-last s.nested (length w.scopes)))

-- In a well-formed state where all scopes of the current one have been entered, so that the next index
-- is their number, `push_scope` makes a new scope inside it,
-- associated as asked and with the walker's next id, and enters it; `pop_scope` then comes back to
-- the same scope, with the same saved indices and with the new scope counted as entered.
pub pop_scope-push_scope :
    {V : Type 0} (w : Walker V) (s : Scope) (assoc : Option ℕ)
    → WellFormed w
    → get_elem? w.scopes w.current ≡ some s
    → w.next_scope_idx ≡ length s.nested
    → (v u : Walker V) × (push_scope w assoc ≡ done tt v)
      × (get_elem? v.scopes v.current ≡ some (fresh_scope w assoc))
      × (pop_scope v ≡ done tt u)
      × (u.current ≡ w.current)
      × (u.prev_scope_idxs ≡ w.prev_scope_idxs)
      × (u.next_scope_idx ≡ w.next_scope_idx + 1)
unfolding add_scope put_current new_scope
pop_scope-push_scope w s assoc ok p e =
    let there = fresh_there w assoc p in
    (
      entered (add_scope w s assoc) (length w.scopes),
      left (entered (add_scope w s assoc) (length w.scopes)) w.current (w.next_scope_idx + 1)
          w.prev_scope_idxs,
      push_scope-fresh w assoc p e,
      there,
      pop_scope-eq (entered (add_scope w s assoc) (length w.scopes))
          (λ z. omega (arith, z, ok.current)) there refl refl,
      refl,
      refl,
      refl,
    )

-- A second walker that stands, with the same index, where the first one stood when it pushed a
-- scope enters that scope.
pub enter_scope-push_scope :
    {V : Type 0} (w x : Walker V) (s : Scope) (assoc : Option ℕ)
    → get_elem? w.scopes w.current ≡ some s
    → w.next_scope_idx ≡ length s.nested
    → x.scopes ≡ (add_scope w s assoc).scopes
    → x.current ≡ w.current
    → x.next_scope_idx ≡ w.next_scope_idx
    → (v y : Walker V) × (push_scope w assoc ≡ done tt v)
      × (enter_scope x ≡ done tt y)
      × (y.current ≡ v.current)
      × (get_elem? y.scopes y.current ≡ some (fresh_scope w assoc))
enter_scope-push_scope w x s assoc p e same at_scope idx = (
  entered (add_scope w s assoc) (length w.scopes),
  entered x (length w.scopes),
  push_scope-fresh w assoc p e,
  enter_scope-eq x
      (ap (λ l. get_elem? l x.current) same
        ∙ ap (λ i. get_elem? (add_scope w s assoc).scopes i) at_scope
        ∙ parent_there w assoc p)
      (ap (λ i. get_elem? (s.nested ++ (length w.scopes ∷ [])) i) (idx ∙ e)
        ∙ get_elem?-last s.nested (length w.scopes)),
  refl,
  ap (λ l. get_elem? l (length w.scopes)) same ∙ fresh_there w assoc p,
)

-- After `reset`, while the index that it leaves alone is below the number of scopes inside the
-- global one, `push_scope` enters an old scope and not the one that it makes.
pub push_scope-reset :
    {V : Type 0} (w : Walker V) (r : Scope) (assoc : Option ℕ)
    → WellFormed w
    → get_elem? w.scopes 0 ≡ some r
    → w.next_scope_idx < length r.nested
    → (v : Walker V) × (push_scope (reset w) assoc ≡ done tt v)
      × (get_elem? r.nested w.next_scope_idx ≡ some v.current)
      × (v.current < length w.scopes)
unfolding reset add_scope put_current
push_scope-reset w r assoc ok p b =
    let (j, q) = get_elem?-some r.nested w.next_scope_idx b in
    let (c, t, u) =
      ok.tree.child 0 (shape r) w.next_scope_idx j (get_elem?-shapes w.scopes 0 p) q in
    (
      entered (add_scope (reset w) r assoc) j,
      push_scope-eq (reset w) assoc p
          ∙ enter_scope-eq (add_scope (reset w) r assoc) (parent_there (reset w) assoc p)
              (get_elem?-append r.nested (length w.scopes ∷ []) w.next_scope_idx q),
      q,
      omega (arith, get_elem?-bound (shapes w.scopes) j t, length-shapes w.scopes),
    )
