-- ===== src/Types/Interning/Refines.antt =====
-- Each of the interning calls of `TypeContext` makes the type that its name says.
use enlightenedc.Prelude.{
  ℕ, ◌≡◌, ◌≢◌, refl, ap, sym, subst, ◌∙◌, Option, none, some, some_eq, List, [], ◌∷◌, ◌++◌, length,
  get_elem?, Option-cases, ◌⊎◌, inl, inr,
}
use mathlib.Core.Logic.{if_pos, if_neg}
use enlightenedc.Symbols.Tree.{get_elem?-append, get_elem?-last, get_elem?-snoc}
use enlightenedc.Types.{Ty, pointer_type, array_type, const_type, atomic_type, volatile_type}
use enlightenedc.Types.Interning.{
  Node, pointer_node, const_node, atomic_node, volatile_node, array_node, Node-discrete,
  TypeContext, find_interned, intern, get_pointer, get_array, get_const_unordered,
  get_atomic_unordered, get_volatile_unordered,
}
use enlightenedc.Types.Interning.Unique.{OnePerKey, MapsToObjects, WellFormed, Denotes}

module _ (m : List (Node × ℕ)) (key : Node) (a : ℕ) where
  found_new : find_interned ((key, a) ∷ m) key ≡ some a
  unfolding find_interned
  found_new = if_pos (Node-discrete key key) refl (some a) (find_interned m key)

  found_old : {node : Node} → key ≢ node → find_interned ((key, a) ∷ m) node ≡ find_interned m node
  unfolding find_interned
  found_old {node} differs = if_neg (Node-discrete key node) differs (some a) (find_interned m node)

  found_either :
      (node : Node) {b : ℕ}
      → find_interned ((key, a) ∷ m) node ≡ some b
      → ((key ≡ node) × (a ≡ b)) ⊎ (find_interned m node ≡ some b)
  unfolding find_interned
  found_either node h = elim (Node-discrete key node) [
    | yes same ↦ inl (
      same,
      some_eq (sym (if_pos (Node-discrete key node) same (some a) (find_interned m node)) ∙ h),
    )
    | no differs ↦
        inr (sym (if_neg (Node-discrete key node) differs (some a) (find_interned m node)) ∙ h)
  ]

-- The context with one more object.
abbrev extended : TypeContext → Node → TypeContext
extended ctx node = record {
  objects = ctx.objects ++ node ∷ [];
  interned = (node, length ctx.objects) ∷ ctx.interned;
}

module _ (ctx : TypeContext) (node : Node) where
  OnePerKey-extended :
      OnePerKey ctx → find_interned ctx.interned node ≡ none → OnePerKey (extended ctx node)
  OnePerKey-extended one missing a other h = elim (get_elem?-snoc ctx.objects node a h) [
    | inl old ↦
        let differs : node ≢ other = λ same.
          let found = one a other old in
          let bad : none ≡ some a =
            sym missing ∙ ap (λ n. find_interned ctx.interned n) same ∙ found in
          cc in
        found_old ctx.interned node (length ctx.objects) differs ∙ one a other old
    | inr (last, same) ↦
        ap (λ n. find_interned ((node, length ctx.objects) ∷ ctx.interned) n) (sym same)
        ∙ found_new ctx.interned node (length ctx.objects)
        ∙ ap some (sym last)
  ]

  MapsToObjects-extended : MapsToObjects ctx → MapsToObjects (extended ctx node)
  MapsToObjects-extended maps a other h =
      elim (found_either ctx.interned node (length ctx.objects) other h) [
        | inl (same, last) ↦
            subst (λ n. get_elem? (ctx.objects ++ node ∷ []) a ≡ some n) same
              (subst (λ i. get_elem? (ctx.objects ++ node ∷ []) i ≡ some node) last
                (get_elem?-last ctx.objects node))
        | inr old ↦ get_elem?-append ctx.objects (node ∷ []) a (maps a other old)
      ]

-- What a call has made: a context that keeps one object for each type, with all the objects that were
-- there, and the object of the type.
abbrev pub Makes : TypeContext → ℕ × TypeContext → Ty → Type 0
Makes ctx made t =
    WellFormed made.1
    × Denotes made.1 made.0 t
    × ((a : ℕ) (s : Ty) → Denotes ctx a s → Denotes made.1 a s)

module _ (ctx : TypeContext) (node : Node) where
  Denotes-extended : (t : Ty) (a : ℕ) → Denotes ctx a t → Denotes (extended ctx node) a t
  Denotes-extended (pointer_type t) a (b, h, d) =
      (b, get_elem?-append ctx.objects (node ∷ []) a h, Denotes-extended t b d)
  Denotes-extended (array_type t size) a (b, h, d) =
      (b, get_elem?-append ctx.objects (node ∷ []) a h, Denotes-extended t b d)
  Denotes-extended (const_type t) a (b, h, d) =
      (b, get_elem?-append ctx.objects (node ∷ []) a h, Denotes-extended t b d)
  Denotes-extended (atomic_type t) a (b, h, d) =
      (b, get_elem?-append ctx.objects (node ∷ []) a h, Denotes-extended t b d)
  Denotes-extended (volatile_type t) a (b, h, d) =
      (b, get_elem?-append ctx.objects (node ∷ []) a h, Denotes-extended t b d)
  Denotes-extended t a h = get_elem?-append ctx.objects (node ∷ []) a h

  -- The same for a key alone.
  pub interns :
      WellFormed ctx
      → WellFormed ((intern ctx node).1)
        × (get_elem? ((intern ctx node).1).objects ((intern ctx node).0) ≡ some node)
        × ((a : ℕ) (s : Ty) → Denotes ctx a s → Denotes ((intern ctx node).1) a s)
  unfolding intern
  interns (one, maps) = elim (Option-cases (find_interned ctx.interned node)) [
    | inr (a, there) ↦ rw there ((one, maps), maps a node there, λ a s d. d)
    | inl missing ↦ rw missing (
      (OnePerKey-extended ctx node one missing, MapsToObjects-extended ctx node maps),
      get_elem?-last ctx.objects node,
      λ a s d. Denotes-extended s a d,
    )
  ]

-- In a well-formed context, each of the five calls returns the object of the type made from the given
-- one, new or not, and leaves a well-formed context in which every object is the type that it was.
pub interning_refines :
    (ctx : TypeContext) (b : ℕ) (t : Ty) (size : Option ℕ)
    → WellFormed ctx
    → Denotes ctx b t
    → Makes ctx (get_pointer ctx b) (pointer_type t)
      × Makes ctx (get_array ctx b size) (array_type t size)
      × Makes ctx (get_const_unordered ctx b) (const_type t)
      × Makes ctx (get_atomic_unordered ctx b) (atomic_type t)
      × Makes ctx (get_volatile_unordered ctx b) (volatile_type t)
unfolding get_pointer get_array get_const_unordered get_atomic_unordered get_volatile_unordered
interning_refines ctx b t size w d =
    let (w1, h1, k1) = interns ctx (pointer_node b) w in
    let (w2, h2, k2) = interns ctx (array_node b size) w in
    let (w3, h3, k3) = interns ctx (const_node b) w in
    let (w4, h4, k4) = interns ctx (atomic_node b) w in
    let (w5, h5, k5) = interns ctx (volatile_node b) w in
    (
      (w1, (b, h1, k1 b t d), k1),
      (w2, (b, h2, k2 b t d), k2),
      (w3, (b, h3, k3 b t d), k3),
      (w4, (b, h4, k4 b t d), k4),
      (w5, (b, h5, k5 b t d), k5),
    )
