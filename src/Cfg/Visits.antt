-- ===== src/Cfg/Visits.antt =====
-- What a part of the walk adds to the state.
use enlightenedc.Prelude.{
  ℕ, ◌+◌, ◌≡◌, refl, sym, ap, subst, ◌∙◌, true, false, List, [], ◌∷◌, Bool-cases, ℕ-cases, inl, inr,
  arith, ◌⊎◌,
}
use enlightenedc.Cfg.Walker.{State, contains, enter, post_visit, post_visits}
use enlightenedc.Cfg.Unvisited.{
  unit_of, count, count-append, contains_cons, contains_cons_self, contains_cons_other,
  contains_cons_cases, unit_of_cons,
}

pub no_member : (x : ℕ) → ¬ (contains [] x ≡ true)
unfolding contains
no_member x h = cc

module _ (graph : ℕ → List ℕ) where
  -- A path from one block to another.
  pub data Reaches : ℕ → ℕ → Type 0 where
    here : (b : ℕ) → Reaches b b
    there : {b x : ℕ} (s : ℕ) → contains (graph b) s ≡ true → Reaches s x → Reaches b x

  -- From `st` to `st'`: the blocks `roots` and what they reach are visited, and each new block is
  -- appended once to both orders, the latter taking the blocks of `chain` too.
  pub record Visits (roots chain : List ℕ) (st st' : State) : Type 0 where
    pub grows : (x : ℕ) → contains st.visited x ≡ true → contains st'.visited x ≡ true
    pub entered : (x : ℕ) → contains roots x ≡ true → contains st'.visited x ≡ true
    pub closed :
        (x y : ℕ)
        → contains st'.visited x ≡ true
        → contains st.visited x ≡ false
        → contains (graph x) y ≡ true
        → contains st'.visited y ≡ true
    pub reached :
        (x : ℕ)
        → contains st'.visited x ≡ true
        → contains st.visited x ≡ false
        → (r : ℕ) × (contains roots r ≡ true) × Reaches r x
    pub pre :
        (x : ℕ)
        → count x st'.preorder + unit_of (contains st.visited x)
          ≡ count x st.preorder + unit_of (contains st'.visited x)
    pub post :
        (x : ℕ)
        → count x st'.postorder + unit_of (contains st.visited x)
          ≡ count x st.postorder + count x chain + unit_of (contains st'.visited x)

  pub Visits-none :
      (roots : List ℕ) (st : State)
      → ((x : ℕ) → contains roots x ≡ true → contains st.visited x ≡ true)
      → Visits roots [] st st
  unfolding count
  Visits-none roots st h = record {
    grows = λ x p. p;
    entered = h;
    closed = λ x y p q r. let bad = sym p ∙ q in cc;
    reached = λ x p q. let bad = sym p ∙ q in cc;
    pre = λ x. refl;
    post = λ x. omega arith;
  }

  -- Two parts of the walk, one after the other.
  pub Visits-then :
      (root : ℕ) (roots : List ℕ) (st st1 st2 : State)
      → Visits (root ∷ []) [] st st1
      → Visits roots [] st1 st2
      → Visits (root ∷ roots) [] st st2
  unfolding count
  Visits-then root roots st st1 st2 a b = record {
    grows = λ x p. b.grows x (a.grows x p);
    entered = λ x p. elim (contains_cons_cases roots root x p) [
      | inl e ↦ b.grows x (a.entered x (ap (λ k. contains (k ∷ []) x) e ∙ contains_cons_self [] x))
      | inr q ↦ b.entered x q
    ];
    closed = λ x y p q r. elim (Bool-cases (contains st1.visited x)) [
      | inl e ↦ b.grows y (a.closed x y e q r)
      | inr e ↦ b.closed x y p e r
    ];
    reached = λ x p q. elim (Bool-cases (contains st1.visited x)) [
      | inl e ↦ let (r, s, t) = a.reached x e q in (r, widen r (contains_cons_cases [] root r s), t)
      | inr e ↦ let (r, s, t) = b.reached x p e in (r, contains_cons roots root r s, t)
    ];
    pre = λ x. omega (arith, a.pre x, b.pre x);
    post = λ x. omega (arith, a.post x, b.post x);
  }
    where
      widen : (r : ℕ) → (root ≡ r) ⊎ (contains [] r ≡ true) → contains (root ∷ roots) r ≡ true
      widen r (inl e) = ap (λ k. contains (k ∷ roots) r) e ∙ contains_cons_self roots r
      widen r (inr bad) = absurd (no_member r bad)

  post_visits-visited : (chain : List ℕ) (st : State) → (post_visits chain st).visited ≡ st.visited
  unfolding post_visits post_visit
  post_visits-visited [] st = refl
  post_visits-visited (b ∷ chain) st = post_visits-visited chain (post_visit b st)

  post_visits-preorder :
      (chain : List ℕ) (st : State) → (post_visits chain st).preorder ≡ st.preorder
  unfolding post_visits post_visit
  post_visits-preorder [] st = refl
  post_visits-preorder (b ∷ chain) st = post_visits-preorder chain (post_visit b st)

  count-post_visits :
      (x : ℕ) (chain : List ℕ) (st : State)
      → count x (post_visits chain st).postorder ≡ count x st.postorder + count x chain
  unfolding post_visits post_visit count
  count-post_visits x [] st = omega arith
  count-post_visits x (b ∷ chain) st =
      omega
        (arith, count-post_visits x chain (post_visit b st), count-append x st.postorder (b ∷ []))

  -- The end of a part of the walk: the chain is visited in postorder.
  pub Visits-post :
      (roots chain : List ℕ) (st st' : State)
      → Visits roots [] st st'
      → Visits roots chain st (post_visits chain st')
  unfolding count
  Visits-post roots chain st st' v = record {
    grows = λ x p. ap (λ l. contains l x) (post_visits-visited chain st') ∙ v.grows x p;
    entered = λ x p. ap (λ l. contains l x) (post_visits-visited chain st') ∙ v.entered x p;
    closed = λ x y p q r.
        ap (λ l. contains l y) (post_visits-visited chain st')
        ∙ v.closed x y (sym (ap (λ l. contains l x) (post_visits-visited chain st')) ∙ p) q r;
    reached =
        λ x p q. v.reached x (sym (ap (λ l. contains l x) (post_visits-visited chain st')) ∙ p) q;
    pre = λ x. omega (
      arith,
      v.pre x,
      ap (λ l. count x l) (post_visits-preorder chain st'),
      ap (λ l. unit_of (contains l x)) (post_visits-visited chain st'),
    );
    post = λ x. omega (
      arith,
      v.post x,
      count-post_visits x chain st',
      ap (λ l. unit_of (contains l x)) (post_visits-visited chain st'),
    );
  }

  -- A block that is entered, with what follows from its successors.
  pub Visits-enter :
      (blk : ℕ) (chain : List ℕ) (st st' : State)
      → contains st.visited blk ≡ false
      → Visits (graph blk) (blk ∷ chain) (enter blk st) st'
      → Visits (blk ∷ []) chain st st'
  unfolding enter count
  Visits-enter blk chain st st' new v = record {
    grows = λ x p. v.grows x (contains_cons st.visited blk x p);
    entered = λ x p. elim (contains_cons_cases [] blk x p) [
      | inl e ↦
          v.grows x (ap (λ k. contains (k ∷ st.visited) x) e ∙ contains_cons_self st.visited x)
      | inr bad ↦ absurd (no_member x bad)
    ];
    closed = λ x y p q r. elim (ℕ-cases blk x) [
      | inl e ↦ v.entered y (ap (λ k. contains (graph k) y) e ∙ r)
      | inr n ↦ v.closed x y p (contains_cons_other st.visited blk x n ∙ q) r
    ];
    reached = λ x p q. elim (ℕ-cases blk x) [
      | inl e ↦ (blk, contains_cons_self [] blk, subst (λ k. Reaches blk k) e (here blk))
      | inr n ↦
          let (r, s, t) = v.reached x p (contains_cons_other st.visited blk x n ∙ q) in
          (blk, contains_cons_self [] blk, there r s t)
    ];
    pre = λ x.
        omega (
          arith,
          v.pre x,
          count-append x st.preorder (blk ∷ []),
          unit_of_cons st.visited blk x new,
        );
    post = λ x. omega (arith, v.post x, unit_of_cons st.visited blk x new);
  }
