-- ===== src/Symbols/Walk.antt =====
-- lib/semantics/symbols.cpp: entering and leaving scopes.
use enlightenedc.Prelude.{
  ℕ, ◌+◌, Option, none, some, List, [], ◌∷◌, ◌++◌, ltb, ◌==◌, length, get_elem?, if◌then◌else◌,
  match_option,
}
use enlightenedc.Outcome.{internal_error, undefined_behaviour}
use enlightenedc.Symbols.Scope.{
  Scope, Walker, Step, done, failed, new_scope, at_current, put_current,
}

module _ {V : Type 0} where
  -- Making `nested[next_scope_idx]` the current scope.
  unfoldable pub descend : Walker V → Option ℕ → Step V (Unit {0})
  descend w none = failed undefined_behaviour
  descend w (some inner) = done tt (record w {
    current = inner;
    prev_scope_idxs = (w.next_scope_idx + 1) ∷ w.prev_scope_idxs;
    next_scope_idx = 0;
  })

  unfoldable pub enter_scope : Walker V → Step V (Unit {0})
  unfolding at_current descend
  enter_scope w = at_current w (λ s.
      if ltb w.next_scope_idx (length s.nested)
      then descend w (get_elem? s.nested w.next_scope_idx)
      else failed internal_error)

  -- The new scope stands at the end of the list of all scopes and of the list of `current`.
  unfoldable pub add_scope : Walker V → Scope → Option ℕ → Walker V
  unfolding new_scope put_current
  add_scope w s assoc =
      let w' = put_current w (record s { nested = s.nested ++ (length w.scopes ∷ []) }) in
      record w' {
        scopes =
            w'.scopes ++ (new_scope assoc (some w.current) w.next_id (some w.next_scope_idx) ∷ []);
        next_id = w.next_id + 1;
      }

  unfoldable pub push_scope : Walker V → Option ℕ → Step V (Unit {0})
  unfolding at_current add_scope enter_scope
  push_scope w assoc = at_current w (λ s. enter_scope (add_scope w s assoc))

  -- Going back to the outer scope, with the index on top of the stack.
  unfoldable pub ascend : Walker V → ℕ → List ℕ → Step V (Unit {0})
  ascend w outer [] = failed undefined_behaviour
  ascend w outer (idx ∷ idxs) =
      done tt (record w { current = outer; next_scope_idx = idx; prev_scope_idxs = idxs })

  unfoldable pub pop_scope : Walker V → Step V (Unit {0})
  unfolding at_current ascend
  pop_scope w =
      if w.current == 0
      then done tt w
      else at_current w (λ s.
        match_option s.outer (failed internal_error) (λ outer. ascend w outer w.prev_scope_idxs))

  -- `reset`: neither the index nor the stack of indices changes.
  unfoldable pub reset : Walker V → Walker V
  reset w = record w { current = 0 }
