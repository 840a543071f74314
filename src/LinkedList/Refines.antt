-- ===== src/LinkedList/Refines.antt =====
-- The list as the sequence of its nodes, and the operations that add and remove one.
use enlightenedc.Prelude.{
  ℕ, ◌+◌, ◌≤◌, ◌≡◌, refl, sym, ap, subst, ◌∙◌, Option, none, some, List, [], ◌∷◌, ◌++◌, ◌==◌,
  if◌then◌else◌, arith, ==_same, ==_ne, ℕ-cases, inl, inr,
}
use enlightenedc.Cfg.Unvisited.{count, unit_of, count-append}
use enlightenedc.LinkedList.{
  Heap, LinkedList, write_next_at, write_prev_at, or_else_set, unlink, erase, remove,
}
use enlightenedc.LinkedList.Chain.{
  head_or, last_or, Node, Chain, link, Chain-frame, Chain-append, Chain-split, last_or-append,
  last_member, write_next_other, write_prev_other, Chain-write_last, Chain-write_head,
}

-- The list holds the nodes of `xs` in this order, each once, and owns no others.
pub record Refines (l : LinkedList) (xs : List ℕ) : Type 0 where
  pub chain : Chain l.heap none xs none
  pub first : l.first_elem ≡ head_or xs none
  pub last : l.last_elem ≡ last_or none xs
  pub distinct : (x : ℕ) → count x xs ≤ 1
  pub owned : (x : ℕ) → count x l.nodes ≡ count x xs

-- The writes at the ends of a list do not touch what is not in it.
pub write_last_frame :
    (xs : List ℕ) (v : Option ℕ) (h : Heap) (y : ℕ)
    → count y xs ≡ 0
    → write_next_at (last_or none xs) v h y ≡ h y
unfolding write_next_at last_or
write_last_frame [] v h y k = refl
write_last_frame (x ∷ xs) v h y k =
    let (m, e, c) = last_member x xs in
    ap (λ o. write_next_at o v h y) e
    ∙ write_next_other m v h y (λ z. omega (arith, ap (λ n. count n (x ∷ xs)) z, k, c))

pub write_head_frame :
    (xs : List ℕ) (v : Option ℕ) (h : Heap) (y : ℕ)
    → count y xs ≡ 0
    → write_prev_at (head_or xs none) v h y ≡ h y
unfolding write_prev_at head_or count
write_head_frame [] v h y k = refl
write_head_frame (x ∷ xs) v h y k =
    write_prev_other x v h y (λ z. omega (arith, ap unit_of (==_same x y (sym z)), k))

-- Joining two chains at the nodes that become neighbours.
pub Chain-join :
    (h : Heap) (p q : Option ℕ) (a b : List ℕ)
    → ((x : ℕ) → count x a + count x b ≤ 1)
    → Chain h none a p
    → Chain h q b none
    → Chain
        (write_prev_at
          (head_or b none)
          (last_or none a)
          (write_next_at (last_or none a) (head_or b none) h))
        none
        (a ++ b)
        none
Chain-join h p q a b one c d =
    let h1 = write_next_at (last_or none a) (head_or b none) h in
    let h2 = write_prev_at (head_or b none) (last_or none a) h1 in
    Chain-append h2 none none a b
      (Chain-frame h1 h2 none (head_or b none) a
        (λ y k. write_head_frame b (last_or none a) h1 y (omega (arith, one y, k)))
        (Chain-write_last h none p (head_or b none) a (λ x. omega (arith, one x)) c))
      (Chain-write_head h1 q none (last_or none a) b (λ x. omega (arith, one x))
        (Chain-frame h h1 q none b
          (λ y k. write_last_frame a (head_or b none) h y (omega (arith, one y, k))) d))

first_of :
    (a b : List ℕ) (x : ℕ) (old : Option ℕ)
    → old ≡ head_or (a ++ (x ∷ b)) none
    → or_else_set (last_or none a) (head_or b none) old ≡ head_or (a ++ b) none
unfolding or_else_set head_or last_or
first_of [] b x old e = refl
first_of (c ∷ a) b x old e = let (m, p, k) = last_member c a in rw p e

last_of :
    (a b : List ℕ) (x : ℕ) (old : Option ℕ)
    → old ≡ last_or none (a ++ (x ∷ b))
    → or_else_set (head_or b none) (last_or none a) old ≡ last_or none (a ++ b)
unfolding or_else_set head_or last_or
last_of a [] x old e = sym (last_or-append none a [])
last_of a (y ∷ b) x old e =
    e ∙ last_or-append none a (x ∷ (y ∷ b)) ∙ sym (last_or-append none a (y ∷ b))

count-erase : (x y : ℕ) (ps : List ℕ) → count y (erase x ps) ≡ (if y == x then 0 else count y ps)
unfolding count erase
count-erase x y [] = ground arith
count-erase x y (p ∷ ps) = ground (arith, count-erase x y ps)

pub count-middle :
    (y : ℕ) (a b : List ℕ) (x : ℕ)
    → count y (a ++ (x ∷ b)) ≡ count y a + (unit_of (x == y) + count y b)
unfolding count
count-middle y a b x = count-append y a (x ∷ b)

-- What `unlink` writes, for a node between `p` and `q`.
module _ (l : LinkedList) (x : ℕ) {p q : Option ℕ} (n : Node l.heap x p q) where
  unlink_heap : (unlink x l).heap ≡ write_prev_at q p (write_next_at p q l.heap)
  unfolding unlink
  unlink_heap = rw (n.prev, n.next) refl

  unlink_first : (unlink x l).first_elem ≡ or_else_set p q l.first_elem
  unfolding unlink
  unlink_first = rw (n.prev, n.next) refl

  unlink_last : (unlink x l).last_elem ≡ or_else_set q p l.last_elem
  unfolding unlink
  unlink_last = rw (n.prev, n.next) refl

count_removed :
    (y : ℕ) (a b ps : List ℕ) (x : ℕ)
    → count y (a ++ (x ∷ b)) ≤ 1
    → count y ps ≡ count y (a ++ (x ∷ b))
    → count y (erase x ps) ≡ count y (a ++ b)
count_removed y a b ps x one own = elim (ℕ-cases x y) [
  | inl e ↦
      (count-erase x y ps ∙ ap (λ t. if t then 0 else count y ps) (==_same y x (sym e)))
      ∙ omega (arith, one, count-middle y a b x, count-append y a b, ap unit_of (==_same x y e))
  | inr n ↦
      (count-erase x y ps ∙ ap (λ t. if t then 0 else count y ps) (==_ne y x (λ z. n (sym z))))
      ∙ omega (arith, own, count-middle y a b x, count-append y a b, ap unit_of (==_ne x y n))
]

-- `remove` takes the node out of the sequence and leaves the others in their order.
pub Refines-remove :
    (l : LinkedList) (a b : List ℕ) (x : ℕ)
    → Refines l (a ++ (x ∷ b))
    → Refines (remove x l) (a ++ b)
unfolding remove
Refines-remove l a b x r = removed (Chain-split l.heap none none a (x ∷ b) r.chain)
  where
    removed :
        Chain l.heap none a (head_or (x ∷ b) none) × Chain l.heap (last_or none a) (x ∷ b) none
        → Refines (remove x l) (a ++ b)
    removed (c, link _ _ n d) = record {
      chain =
          subst (λ h. Chain h none (a ++ b) none) (sym (unlink_heap l x n))
            (Chain-join l.heap (head_or (x ∷ b) none) (some x) a b
              (λ y. omega (arith, r.distinct y, count-middle y a b x)) c d);
      first = unlink_first l x n ∙ first_of a b x l.first_elem r.first;
      last = unlink_last l x n ∙ last_of a b x l.last_elem r.last;
      distinct = λ y. omega (arith, r.distinct y, count-middle y a b x, count-append y a b);
      owned = λ y. count_removed y a b l.nodes x (r.distinct y) (r.owned y);
    }
