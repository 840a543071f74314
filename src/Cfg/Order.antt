-- ===== src/Cfg/Order.antt =====
-- The walk ends, and visits each block that the entry block reaches exactly once in either order.
use enlightenedc.Prelude.{
  ℕ, zero, suc, ◌≤◌, ◌<◌, ◌≡◌, ◌↔◌, refl, sym, ap, subst, ◌∙◌, true, false, List, [], ◌∷◌, Option,
  some, Bool-cases, inl, inr, arith,
}
use enlightenedc.Cfg.Walker.{
  State, contains, enter, post_visits, visit_successors, follow, walk_chain, visit_block,
  walk_function,
}
use enlightenedc.Cfg.Unvisited.{
  unit_of, count, unvisited, contains_cons, contains_cons_self, contains_cons_cases, unvisited_cons,
  unvisited_mono, unvisited_empty,
}
use enlightenedc.Cfg.Visits.{
  Reaches, here, there, Visits, Visits-none, Visits-then, Visits-post, Visits-enter, no_member,
}

entered_le :
    (n blk : ℕ) (st : State) → unvisited n (enter blk st).visited ≤ unvisited n (blk ∷ st.visited)
unfolding enter
entered_le n blk st = omega arith

known :
    (visited : List ℕ) (s : ℕ)
    → contains visited s ≡ true
    → (x : ℕ) → contains (s ∷ []) x ≡ true
    → contains visited x ≡ true
known visited s e x p = elim (contains_cons_cases [] s x p) [
  | inl z ↦ subst (λ k. contains visited k ≡ true) z e
  | inr bad ↦ absurd (no_member x bad)
]

module _ (graph : ℕ → List ℕ) (n : ℕ) where
  -- Part of the walk does what it should.
  abbrev Does : Option State → List ℕ → List ℕ → State → Type 0
  Does r roots chain st = (st' : State) × (r ≡ some st') × Visits graph roots chain st st'

  visit_successors-Visits :
      (visit : ℕ → State → Option State) (m : ℕ)
      → ((blk : ℕ) (st : State)
          → blk < n
          → unvisited n st.visited ≤ m
          → Does (visit blk st) (blk ∷ []) [] st)
      → (succs : List ℕ) (st : State) → ((y : ℕ) → contains succs y ≡ true → y < n)
      → unvisited n st.visited ≤ m
      → Does (visit_successors visit succs st) succs [] st
  unfolding visit_successors
  visit_successors-Visits visit m each [] st below fuel =
      (st, refl, Visits-none graph [] st (λ x p. absurd (no_member x p)))
  visit_successors-Visits visit m each (s ∷ succs) st below fuel =
      elim (Bool-cases (contains st.visited s)) [
        | inl e ↦
            let (st2, p, v) =
              visit_successors-Visits visit m each succs st
                (λ y q. below y (contains_cons succs s y q)) fuel in
            (
              st2,
              rw (e, visit_successors) p,
              Visits-then graph s succs st st st2
                  (Visits-none graph (s ∷ []) st (known st.visited s e)) v,
            )
        | inr e ↦
            let (st1, q, u) = each s st (below s (contains_cons_self succs s)) fuel in
            let (st2, p, v) =
              visit_successors-Visits visit m each succs st1
                (λ y q. below y (contains_cons succs s y q))
                (omega (arith, unvisited_mono n st.visited st1.visited u.grows, fuel)) in
            (st2, rw (e, q, visit_successors) p, Visits-then graph s succs st st1 st2 u v)
      ]

  module _ (below : (b y : ℕ) → contains (graph b) y ≡ true → y < n) where
    follow-Visits :
        (walk : ℕ → List ℕ → State → Option State) (m : ℕ)
        → ((blk : ℕ) (chain : List ℕ) (st : State)
            → blk < n
            → unvisited n st.visited ≤ m
            → Does (walk blk chain st) (blk ∷ []) chain st)
        → (succs chain : List ℕ) (st : State) → ((y : ℕ) → contains succs y ≡ true → y < n)
        → unvisited n st.visited ≤ m
        → Does (follow walk succs chain st) succs chain st
    unfolding follow
    follow-Visits walk m each [] chain st inside fuel = (
      post_visits chain st,
      refl,
      Visits-post graph [] chain st st (Visits-none graph [] st (λ x p. absurd (no_member x p))),
    )
    follow-Visits walk m each (s ∷ []) chain st inside fuel =
        each s chain st (inside s (contains_cons_self [] s)) fuel
    follow-Visits walk m each (s ∷ (t ∷ succs)) chain st inside fuel =
        let (st2, p, v) =
          visit_successors-Visits (λ blk st'. walk blk [] st') m (λ blk st'. each blk [] st')
            (s ∷ (t ∷ succs)) st inside fuel in
        (post_visits chain st2, rw p refl, Visits-post graph (s ∷ (t ∷ succs)) chain st st2 v)

    walk_chain-Visits :
        (fuel blk : ℕ) (chain : List ℕ) (st : State)
        → blk < n
        → unvisited n st.visited < fuel
        → Does (walk_chain graph fuel blk chain st) (blk ∷ []) chain st
    unfolding walk_chain
    walk_chain-Visits zero blk chain st b h = elim h [ ]
    walk_chain-Visits (suc fuel) blk chain st b h = elim (Bool-cases (contains st.visited blk)) [
      | inl e ↦ (
        post_visits chain st,
        rw (e, walk_chain) refl,
        Visits-post graph (blk ∷ []) chain st st
            (Visits-none graph (blk ∷ []) st (known st.visited blk e)),
      )
      | inr e ↦
          let less = unvisited_cons n st.visited blk b e in
          let (st', p, v) =
            follow-Visits (walk_chain graph fuel) (unvisited n (blk ∷ st.visited))
              (λ c ch s q r. walk_chain-Visits fuel c ch s q (omega (arith, r, less, h)))
              (graph blk) (blk ∷ chain) (enter blk st) (λ y q. below blk y q)
              (entered_le n blk st) in
          (st', rw (e, walk_chain) p, Visits-enter graph blk chain st st' e v)
    ]

abbrev pub nothing : State
nothing = record { visited = []; preorder = []; postorder = [] }

-- What a closed set with a block contains is all that the block reaches.
Reaches-closed :
    (graph : ℕ → List ℕ) (visited : List ℕ) (b x : ℕ)
    → ((u y : ℕ)
        → contains visited u ≡ true
        → contains (graph u) y ≡ true
        → contains visited y ≡ true)
    → contains visited b ≡ true
    → Reaches graph b x
    → contains visited x ≡ true
Reaches-closed graph visited b x closed h (here c) = h
Reaches-closed graph visited b x closed h (there s p r) =
    Reaches-closed graph visited s x closed (closed b s h p) r

not_visited : (x : ℕ) → contains [] x ≡ false
unfolding contains
not_visited x = refl

module _ (graph : ℕ → List ℕ) (entry : ℕ) (st : State)
    (v : Visits graph (entry ∷ []) [] nothing st) where
  preorder_count : (x : ℕ) → count x st.preorder ≡ unit_of (contains st.visited x)
  unfolding count
  preorder_count x = omega (arith, v.pre x, ap unit_of (not_visited x))

  postorder_count : (x : ℕ) → count x st.postorder ≡ unit_of (contains st.visited x)
  unfolding count
  postorder_count x = omega (arith, v.post x, ap unit_of (not_visited x))

  reached_once : (x : ℕ) → Reaches graph entry x → count x st.preorder ≡ 1
  reached_once x r =
      preorder_count x
      ∙ ap unit_of (
          Reaches-closed graph st.visited entry x (λ u y p q. v.closed u y p (not_visited u) q)
            (v.entered entry (contains_cons_self [] entry)) r)

  once_Reaches : (x : ℕ) → count x st.preorder ≡ 1 → Reaches graph entry x
  once_Reaches x h = elim (Bool-cases (contains st.visited x)) [
    | inl e ↦
        let (r, p, q) = v.reached x e (not_visited x) in
        elim (contains_cons_cases [] entry r p) [
          | inl z ↦ subst (λ k. Reaches graph k x) (sym z) q
          | inr bad ↦ absurd (no_member r bad)
        ]
    | inr e ↦ absurd (omega (arith, h, preorder_count x, ap unit_of e))
  ]

  at_most_once : (x : ℕ) → count x st.preorder ≤ 1
  at_most_once x = elim (Bool-cases (contains st.visited x)) [
    | inl e ↦ omega (arith, preorder_count x, ap unit_of e)
    | inr e ↦ omega (arith, preorder_count x, ap unit_of e)
  ]

-- On a function whose blocks are the numbers below `n`, the walk ends; a block is in the preorder,
-- and in the postorder, exactly if the entry block reaches it, and then exactly once.
pub walk_function-Reaches :
    (graph : ℕ → List ℕ) (n entry : ℕ) (st : State)
    → ((b y : ℕ) → contains (graph b) y ≡ true → y < n)
    → entry < n
    → (st' : State) × (walk_function graph n true entry st ≡ some st')
      × ((x : ℕ)
          → ((Reaches graph entry x) ↔ (count x st'.preorder ≡ 1))
            × (count x st'.preorder ≤ 1)
            × (count x st'.postorder ≡ count x st'.preorder))
unfolding walk_function visit_block
walk_function-Reaches graph n entry st below h =
    let (st', p, v) =
      walk_chain-Visits graph n below (suc n) entry [] nothing h
        (omega (arith, unvisited_empty n)) in
    (
      st',
      p,
      λ x. (
        (reached_once graph entry st' v x, once_Reaches graph entry st' v x),
        at_most_once graph entry st' v x,
        postorder_count graph entry st' v x ∙ sym (preorder_count graph entry st' v x),
      ),
    )
