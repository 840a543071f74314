-- ===== src/LinkedList/Push.antt =====
-- Adding nodes at the ends of the list, and taking them off.
use enlightenedc.Prelude.{
  ℕ, ◌≤◌, ◌≡◌, ◌≢◌, refl, sym, ap, subst, ◌∙◌, Option, none, some, List, [], ◌∷◌, ◌++◌, arith,
  ==_same, ==_ne, ℕ-cases, inl, inr,
}
use enlightenedc.Cfg.Unvisited.{count, unit_of, count-append}
use enlightenedc.LinkedList.{
  Links, Heap, LinkedList, write_next, write_prev, write_next_at, write_prev_at, or_else_set, adopt,
  link_back, link_front, remove, pop_back, pop_front,
}
use enlightenedc.LinkedList.Chain.{
  head_or, last_or, Node, Chain, done, link, Chain-frame, Chain-append, last_or-append, last_member,
  write_next_other, write_prev_other, write_next_self, write_prev_self, Chain-write_last,
  Chain-write_head,
}
use enlightenedc.LinkedList.Refines.{Refines, Refines-remove, write_last_frame, write_head_frame}

-- A node that is not in a list differs from those that are.
absent_ne : (item y : ℕ) (xs : List ℕ) → count item xs ≡ 0 → 1 ≤ count y xs → y ≢ item
absent_ne item y xs k p e = omega (arith, ap (λ n. count n xs) e, k, p)

first_pushed :
    (xs : List ℕ) (item : ℕ) (old : Option ℕ)
    → old ≡ head_or xs none
    → or_else_set (last_or none xs) (some item) old ≡ head_or (xs ++ (item ∷ [])) none
unfolding or_else_set head_or last_or
first_pushed [] item old e = refl
first_pushed (x ∷ xs) item old e = let (m, p, k) = last_member x xs in rw p e

last_pushed :
    (xs : List ℕ) (item : ℕ) (old : Option ℕ)
    → old ≡ last_or none xs
    → or_else_set (head_or xs none) (some item) old ≡ last_or none (item ∷ xs)
unfolding or_else_set head_or last_or
last_pushed [] item old e = refl
last_pushed (x ∷ xs) item old e = e

count_pushed :
    (y item : ℕ) (xs : List ℕ)
    → ((z : ℕ) → count z xs ≤ 1)
    → count item xs ≡ 0
    → count y (item ∷ xs) ≤ 1
unfolding count
count_pushed y item xs one k = elim (ℕ-cases item y) [
  | inl e ↦ omega (arith, ap unit_of (==_same item y e), ap (λ n. count n xs) e, k)
  | inr n ↦ omega (arith, ap unit_of (==_ne item y n), one y)
]

module _ (l : LinkedList) (xs : List ℕ) (item : ℕ) (r : Refines l xs) (k : count item xs ≡ 0) where
  abbrev back_heap : Heap
  back_heap = write_next item none (write_prev item l.last_elem l.heap)

  back-Node :
      Node (write_next_at (last_or none xs) (some item) back_heap) item (last_or none xs) none
  back-Node =
      let e =
        write_last_frame xs (some item) back_heap item k
        ∙ write_next_self item none (write_prev item l.last_elem l.heap) in
      record {
        prev =
            ap (λ (n : Links). n.prev_node) e
            ∙ ap (λ (n : Links). n.prev_node) (write_prev_self item l.last_elem l.heap)
            ∙ r.last;
        next = ap (λ (n : Links). n.next_node) e;
      }

  back_same : (y : ℕ) → 1 ≤ count y xs → back_heap y ≡ l.heap y
  back_same y p =
      write_next_other item none (write_prev item l.last_elem l.heap) y (absent_ne item y xs k p)
      ∙ write_prev_other item l.last_elem l.heap y (absent_ne item y xs k p)

  back-Chain :
      Chain (write_next_at (last_or none xs) (some item) back_heap) none (xs ++ (item ∷ [])) none
  unfolding head_or
  back-Chain =
      Chain-append (write_next_at (last_or none xs) (some item) back_heap) none none xs (item ∷ [])
        (Chain-write_last back_heap none none (some item) xs r.distinct
          (Chain-frame l.heap back_heap none none xs back_same r.chain))
        (link item [] back-Node done)

  -- `link_back` puts a node that the list does not have at the end of the sequence.
  pub Refines-link_back : Refines (link_back item l) (xs ++ (item ∷ []))
  unfolding link_back adopt last_or count
  Refines-link_back = record {
    chain =
        subst (λ o. Chain (write_next_at o (some item) back_heap) none (xs ++ (item ∷ [])) none)
          (sym r.last) back-Chain;
    first =
        ap (λ o. or_else_set o (some item) l.first_elem) r.last
        ∙ first_pushed xs item l.first_elem r.first;
    last = sym (last_or-append none xs (item ∷ []));
    distinct =
        λ y. omega (arith, count-append y xs (item ∷ []), count_pushed y item xs r.distinct k);
    owned = λ y. omega (arith, count-append y xs (item ∷ []), r.owned y);
  }

  abbrev front_heap : Heap
  front_heap = write_prev item none (write_next item l.first_elem l.heap)

  front_same : (y : ℕ) → 1 ≤ count y xs → front_heap y ≡ l.heap y
  front_same y p =
      write_prev_other item none (write_next item l.first_elem l.heap) y (absent_ne item y xs k p)
      ∙ write_next_other item l.first_elem l.heap y (absent_ne item y xs k p)

  front-Chain : Chain (write_prev_at (head_or xs none) (some item) front_heap) none (item ∷ xs) none
  front-Chain =
      let e =
        write_head_frame xs (some item) front_heap item k
        ∙ write_prev_self item none (write_next item l.first_elem l.heap) in
      link item xs
        (record {
          prev = ap (λ (n : Links). n.prev_node) e;
          next =
              ap (λ (n : Links). n.next_node) e
              ∙ ap (λ (n : Links). n.next_node) (write_next_self item l.first_elem l.heap)
              ∙ r.first;
        })
        (Chain-write_head front_heap none none (some item) xs r.distinct
          (Chain-frame l.heap front_heap none none xs front_same r.chain))

  -- `link_front` puts a node that the list does not have before the sequence.
  pub Refines-link_front : Refines (link_front item l) (item ∷ xs)
  unfolding link_front adopt count head_or
  Refines-link_front = record {
    chain =
        subst (λ o. Chain (write_prev_at o (some item) front_heap) none (item ∷ xs) none)
          (sym r.first) front-Chain;
    first = refl;
    last =
        ap (λ o. or_else_set o (some item) l.last_elem) r.first
        ∙ last_pushed xs item l.last_elem r.last;
    distinct = λ y. count_pushed y item xs r.distinct k;
    owned = λ y. omega (arith, r.owned y);
  }

append_nil : (xs : List ℕ) → xs ++ [] ≡ xs
append_nil [] = refl
append_nil (x ∷ xs) = ap (λ l. x ∷ l) (append_nil xs)

-- `pop_back` and `pop_front` throw on an empty list and take the node at their end off another.
pub Refines-pop :
    (l : LinkedList) (xs : List ℕ) (x : ℕ)
    → (Refines l [] → (pop_back l ≡ none) × (pop_front l ≡ none))
      × (Refines l (xs ++ (x ∷ [])) → (l' : LinkedList) × (pop_back l ≡ some l') × Refines l' xs)
      × (Refines l (x ∷ xs) → (l' : LinkedList) × (pop_front l ≡ some l') × Refines l' xs)
unfolding pop_back pop_front last_or head_or
Refines-pop l xs x = (
  λ r. (rw r.last refl, rw r.first refl),
  λ r. (
    remove x l,
    rw (r.last ∙ last_or-append none xs (x ∷ [])) refl,
    subst (Refines (remove x l)) (append_nil xs) (Refines-remove l xs [] x r),
  ),
  λ r. (remove x l, rw r.first refl, Refines-remove l [] xs x r),
)
