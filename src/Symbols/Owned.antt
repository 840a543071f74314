-- ===== src/Symbols/Owned.antt =====
-- The pointers in the maps of a reachable table are to symbols that exist.
use enlightenedc.Prelude.{
  ℕ, suc, ◌≤◌, ◌<◌, ◌≡◌, sym, subst, Bool, Option, none, some, List, [], ◌∷◌, ◌++◌, length,
  get_elem?, Option-cases, Bool-cases, inl, inr, arith, length-append, match_option, ◌==◌, ◌⊎◌,
}
use enlightenedc.Outcome.{undefined_behaviour}
use enlightenedc.Symbols.Name.{
  Name, StringMap, find, insert_or_assign, erase, find-insert-cases, find-erase-cases,
}
use enlightenedc.Symbols.Scope.{
  Scope, Walker, Symbol, Step, done, thrown, failed, at_current, put_current, tie_current_to,
  set_assoc, locally_contains, scope_get, new_scope,
}
use enlightenedc.Symbols.Insert.{
  InsertVarArgs, insert_var, insert_implicit, insert_alias, insert_type, insert_label, own,
  alias_in,
}
use enlightenedc.Symbols.Grow.{get_elem?-set}
use enlightenedc.Symbols.Shadowing.{OwnedBy, Owned}

-- The values of a map are below `n`.
abbrev pub Below : ℕ → StringMap ℕ → Type 0
Below n m = (name : Name) (p : ℕ) → find m name ≡ some p → p < n

pub Below-weaken : {n k : ℕ} (m : StringMap ℕ) → n ≤ k → Below n m → Below k m
Below-weaken m le b name p h = omega (arith, b name p h, le)

pub Below-insert :
    (n : ℕ) (m : StringMap ℕ) (name : Name) → Below n m → Below (suc n) (insert_or_assign m name n)
Below-insert n m name b other p h = elim (find-insert-cases m name other n p h) [
  | inl e ↦ omega (arith, e)
  | inr e ↦ omega (arith, b other p e)
]

Below-erase : (n : ℕ) (m : StringMap ℕ) (name : Name) → Below n m → Below n (erase m name)
Below-erase n m name b other p h = b other p (find-erase-cases m name other p h)

pub OwnedBy-weaken : {n k : ℕ} (s : Scope) → n ≤ k → OwnedBy n s → OwnedBy k s
OwnedBy-weaken s le o = record {
  phys = Below-weaken s.phys_symbols le o.phys;
  implicits = Below-weaken s.implicits le o.implicits;
}

pub OwnedBy-new_scope :
    (n : ℕ) (assoc outer : Option ℕ) (id : ℕ) (idx : Option ℕ)
    → OwnedBy n (new_scope assoc outer id idx)
unfolding new_scope find
OwnedBy-new_scope n assoc outer id idx = record { phys = λ m p h. cc; implicits = λ m p h. cc }

length-own : {A : Type 0} (xs : List A) (x : A) → length (xs ++ (x ∷ [])) ≡ suc (length xs)
length-own xs x = omega (arith, length-append xs (x ∷ []))

OwnedBy-alias_in :
    (n : ℕ) (s : Scope) (name : Name) → OwnedBy n s → OwnedBy (suc n) (alias_in s name n)
unfolding alias_in
OwnedBy-alias_in n s name b = elim (Option-cases (find s.phys_symbols name)) [
  | inl e ↦ rw e (record {
    phys = Below-insert n s.phys_symbols name b.phys;
    implicits = Below-weaken s.implicits (omega arith) b.implicits;
  })
  | inr (p, e) ↦ rw e (record {
    phys =
        Below-insert n (erase s.phys_symbols name) name (Below-erase n s.phys_symbols name b.phys);
    implicits = Below-weaken s.implicits (omega arith) b.implicits;
  })
]

module _ {V : Type 0} where
  Owned-put :
      (w : Walker V) (s' : Scope) (symbols : List (Symbol V))
      → Owned w
      → length w.symbols ≤ length symbols
      → OwnedBy (length symbols) s'
      → Owned (put_current (record w { symbols = symbols }) s')
  unfolding put_current
  Owned-put w s' symbols o le b i s h = elim (get_elem?-set w.scopes w.current i s' h) [
    | inl (e, f) ↦ subst (OwnedBy (length symbols)) f b
    | inr (n, p) ↦ OwnedBy-weaken s le (o i s p)
  ]

  -- The scope gets a map that may name the new symbol.
  pub Owned-own :
      (w : Walker V) (s' : Scope) (sym : Symbol V)
      → Owned w
      → OwnedBy (suc (length w.symbols)) s'
      → Owned (put_current (own w sym) s')
  unfolding own
  Owned-own w s' sym o b =
      Owned-put w s' (w.symbols ++ (sym ∷ [])) o (omega (arith, length-own w.symbols sym))
        (subst (λ n. OwnedBy n s') (symm (length-own w.symbols sym)) b)
    where
      symm : {a b : ℕ} → a ≡ b → b ≡ a
      symm e = omega (arith, e)

module _ {V A : Type 0} where
  abbrev pub Owns : Step V A → Type 0
  Owns (done a w) = Owned w
  Owns (thrown p w) = Owned w
  Owns (failed e) = Unit {0}

  pub Owns-at_current :
      (w : Walker V) (k : Scope → Step V A)
      → Owned w
      → ((s : Scope) → OwnedBy (length w.symbols) s → Owns (k s))
      → Owns (at_current w k)
  unfolding at_current
  Owns-at_current w k o h = elim (Option-cases (get_elem? w.scopes w.current)) [
    | inl e ↦ rw e tt
    | inr (s, e) ↦ rw e (h s (o w.current s e))
  ]

module _ {V : Type 0} where
  pub Owns-insert_var : (w : Walker V) (args : InsertVarArgs V) → Owned w → Owns (insert_var w args)
  unfolding insert_var
  Owns-insert_var w args o = Owns-at_current w _ o (λ s b.
      elim (Option-cases (find s.phys_symbols args.name)) [
        | inl e ↦ rw e (
            Owned-own w _ _ o (record {
              phys = Below-insert (length w.symbols) s.phys_symbols args.name b.phys;
              implicits = Below-weaken s.implicits (omega arith) b.implicits;
            }))
        | inr (p, e) ↦ rw e o
      ])

  implicit_name :
      (w : Walker V) (found : Option ℕ)
      → Owned w
      → Owns {A = ℕ}
          (match_option found (failed undefined_behaviour) (λ existing. thrown existing w))
  implicit_name w none o = tt
  implicit_name w (some p) o = o

  pub Owns-insert_implicit :
      (w : Walker V) (args : InsertVarArgs V) → Owned w → Owns (insert_implicit w args)
  unfolding insert_implicit
  Owns-insert_implicit w args o = Owns-at_current w _ o (λ s b.
      elim (Bool-cases (locally_contains s args.name)) [
        | inl e ↦ rw e (implicit_name w (scope_get s args.name) o)
        | inr e ↦ elim (Bool-cases (w.current == 0)) [
          | inl z ↦ rw (e, z) tt
          | inr z ↦
              rw (e, z)
                (Owned-own w _ _ o (record {
                  phys = Below-weaken s.phys_symbols (omega arith) b.phys;
                  implicits = Below-insert (length w.symbols) s.implicits args.name b.implicits;
                }))
        ]
      ])

  pub Owns-insert_alias : (w : Walker V) (aliasee : ℕ) → Owned w → Owns (insert_alias w aliasee)
  unfolding insert_alias
  Owns-insert_alias w aliasee o = elim (Option-cases (get_elem? w.symbols aliasee)) [
    | inl e ↦ rw e tt
    | inr (target, e) ↦ rw e (
        Owns-at_current w _ o
          (λ s b. Owned-own w _ _ o (OwnedBy-alias_in (length w.symbols) s _ b)))
  ]

  pub Owns-insert_type :
      (w : Walker V) (name : Name) (ty : ℕ) → Owned w → Owns (insert_type w name ty)
  unfolding insert_type
  Owns-insert_type w name ty o = Owns-at_current w _ o (λ s b.
      elim (Option-cases (find s.type_symbols name)) [
        | inl e ↦ rw e (
            Owned-own w _ _ o (record {
              phys = Below-weaken s.phys_symbols (omega arith) b.phys;
              implicits = Below-weaken s.implicits (omega arith) b.implicits;
            }))
        | inr (p, e) ↦ rw e o
      ])

  pub Owns-insert_label : (w : Walker V) (name : Name) → Owned w → Owns (insert_label w name)
  unfolding insert_label
  Owns-insert_label w name o = Owns-at_current w _ o (λ s b.
      elim (Option-cases (find s.label_symbols name)) [
        | inl e ↦ rw e (
            Owned-own w _ _ o (record {
              phys = Below-weaken s.phys_symbols (omega arith) b.phys;
              implicits = Below-weaken s.implicits (omega arith) b.implicits;
            }))
        | inr (p, e) ↦ rw e o
      ])

  pub Owns-tie_current_to :
      (w : Walker V) (f : ℕ) (override : Bool) → Owned w → Owns (tie_current_to w f override)
  unfolding tie_current_to set_assoc
  Owns-tie_current_to w f override o =
      Owns-at_current w _ o
        (λ s b. Owned-put w _ w.symbols o (omega arith) (same s b (Option-cases s.assoc)))
    where
      same :
          (s : Scope)
          → OwnedBy (length w.symbols) s
          → (s.assoc ≡ none) ⊎ ((g : ℕ) × (s.assoc ≡ some g))
          → OwnedBy (length w.symbols) (set_assoc s f override)
      same s b (inl e) = rw e (record { phys = b.phys; implicits = b.implicits })
      same s b (inr (g, e)) = elim (Bool-cases override) [
        | inl t ↦ rw (e, t) (record { phys = b.phys; implicits = b.implicits })
        | inr t ↦ rw (e, t) (record { phys = b.phys; implicits = b.implicits })
      ]
