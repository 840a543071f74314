-- ===== src/LinkedList/Splice.antt =====
-- Putting a node before another one.
use enlightenedc.Prelude.{
  ℕ, ◌+◌, ◌≤◌, ◌≡◌, ◌≢◌, refl, sym, ap, subst, ◌∙◌, Option, none, some, List, [], ◌∷◌, ◌++◌, ◌==◌,
  arith, ==_same, ==_ne, ℕ-cases, inl, inr,
}
use enlightenedc.Cfg.Unvisited.{count, unit_of}
use enlightenedc.LinkedList.{
  Links, Heap, LinkedList, write_next, write_prev, write_next_at, or_else_set, adopt,
  link_before_raw, link_before,
}
use enlightenedc.LinkedList.Chain.{
  head_or, last_or, Node, Chain, link, Chain-frame, Chain-append, Chain-split, last_or-append,
  last_member, write_next_other, write_prev_other, write_next_self, write_prev_self,
  Chain-write_last,
}
use enlightenedc.LinkedList.Refines.{Refines, write_last_frame, count-middle}

first_spliced :
    (a b : List ℕ) (item pos : ℕ) (old : Option ℕ)
    → old ≡ head_or (a ++ (pos ∷ b)) none
    → or_else_set (last_or none a) (some item) old ≡ head_or (a ++ (item ∷ (pos ∷ b))) none
unfolding or_else_set head_or last_or
first_spliced [] b item pos old e = refl
first_spliced (c ∷ a) b item pos old e = let (m, p, k) = last_member c a in rw p e

module _ (l : LinkedList) (a b : List ℕ) (item pos : ℕ) (r : Refines l (a ++ (pos ∷ b)))
    (k : count item (a ++ (pos ∷ b)) ≡ 0) where
  apart : item ≢ pos
  apart e = omega (arith, k, count-middle item a b pos, ap unit_of (==_same pos item (sym e)))

  abbrev spliced : Heap
  spliced =
      write_prev pos (some item)
        (write_prev item (last_or none a) (write_next item (some pos) l.heap))

  spliced_other : (y : ℕ) → y ≢ item → y ≢ pos → spliced y ≡ l.heap y
  spliced_other y n m =
      write_prev_other pos (some item)
        (write_prev item (last_or none a) (write_next item (some pos) l.heap)) y m
      ∙ write_prev_other item (last_or none a) (write_next item (some pos) l.heap) y n
      ∙ write_next_other item (some pos) l.heap y n

  spliced_item : Node spliced item (last_or none a) (some pos)
  spliced_item =
      let e =
        write_prev_other pos (some item)
          (write_prev item (last_or none a) (write_next item (some pos) l.heap)) item apart
        ∙ write_prev_self item (last_or none a) (write_next item (some pos) l.heap) in
      record {
        prev = ap (λ (n : Links). n.prev_node) e;
        next =
            ap (λ (n : Links). n.next_node) e
            ∙ ap (λ (n : Links). n.next_node) (write_next_self item (some pos) l.heap);
      }

  spliced_pos : {q : Option ℕ} → (l.heap pos).next_node ≡ q → Node spliced pos (some item) q
  spliced_pos f =
      let e =
        write_prev_self pos (some item)
          (write_prev item (last_or none a) (write_next item (some pos) l.heap)) in
      record {
        prev = ap (λ (n : Links). n.prev_node) e;
        next =
            ap (λ (n : Links). n.next_node) e
            ∙ ap (λ (n : Links). n.next_node)
                (write_prev_other item (last_or none a) (write_next item (some pos) l.heap) pos
                  (λ z. apart (sym z)))
            ∙ ap (λ (n : Links). n.next_node)
                (write_next_other item (some pos) l.heap pos (λ z. apart (sym z)))
            ∙ f;
      }

  not_item : (y : ℕ) → 1 ≤ count y a + count y b → y ≢ item
  not_item y p e = omega (arith, ap (λ n. count n a + count n b) e, p, k, count-middle item a b pos)

  not_pos : (y : ℕ) → 1 ≤ count y a + count y b → y ≢ pos
  not_pos y p e =
      omega (arith, r.distinct y, count-middle y a b pos, p, ap unit_of (==_same pos y (sym e)))

  abbrev final_heap : Heap
  final_heap = write_next_at (last_or none a) (some item) spliced

  Node-final : (y : ℕ) {p q : Option ℕ} → count y a ≡ 0 → Node spliced y p q → Node final_heap y p q
  Node-final y z n =
      let e = write_last_frame a (some item) spliced y z in
      record {
        prev = ap (λ (m : Links). m.prev_node) e ∙ n.prev;
        next = ap (λ (m : Links). m.next_node) e ∙ n.next;
      }

  Chain-final :
      Chain l.heap none a (some pos)
      → (l.heap pos).next_node ≡ head_or b none
      → Chain l.heap (some pos) b none
      → Chain final_heap none (a ++ (item ∷ (pos ∷ b))) none
  unfolding head_or last_or
  Chain-final c f d =
      Chain-append final_heap none none a (item ∷ (pos ∷ b))
        (Chain-write_last spliced none (some pos) (some item) a
          (λ x. omega (arith, r.distinct x, count-middle x a b pos))
          (Chain-frame l.heap spliced none (some pos) a
            (λ y p. spliced_other y (not_item y (omega (arith, p))) (not_pos y (omega (arith, p))))
            c))
        (link item (pos ∷ b)
          (Node-final item (omega (arith, k, count-middle item a b pos)) spliced_item)
          (link pos b
            (Node-final pos
              (omega (
                arith,
                r.distinct pos,
                count-middle pos a b pos,
                ap unit_of (==_same pos pos refl),
              ))
              (spliced_pos f))
            (Chain-frame l.heap final_heap (some pos) none b
              (λ y p.
                write_last_frame a (some item) spliced y
                  (omega (arith, r.distinct y, count-middle y a b pos, p))
                ∙ spliced_other y (not_item y (omega (arith, p))) (not_pos y (omega (arith, p))))
              d)))

-- What `link_before_raw` writes before a node that follows `p`.
module _ (l : LinkedList) (item pos : ℕ) {p : Option ℕ} (e : (l.heap pos).prev_node ≡ p) where
  raw_heap :
      (link_before_raw item pos l).heap
      ≡ write_next_at p
          (some item)
          (write_prev pos (some item) (write_prev item p (write_next item (some pos) l.heap)))
  unfolding link_before_raw
  raw_heap = rw e refl

  raw_first : (link_before_raw item pos l).first_elem ≡ or_else_set p (some item) l.first_elem
  unfolding link_before_raw
  raw_first = rw e refl

  raw_rest :
      ((link_before_raw item pos l).last_elem ≡ l.last_elem)
      × ((link_before_raw item pos l).nodes ≡ l.nodes)
  unfolding link_before_raw
  raw_rest = (refl, refl)

last_spliced :
    (a b : List ℕ) (item pos : ℕ)
    → last_or none (a ++ (pos ∷ b)) ≡ last_or none (a ++ (item ∷ (pos ∷ b)))
unfolding last_or
last_spliced a b item pos =
    last_or-append none a (pos ∷ b) ∙ sym (last_or-append none a (item ∷ (pos ∷ b)))

count_spliced :
    (y item pos : ℕ) (a b : List ℕ)
    → count y (a ++ (item ∷ (pos ∷ b))) ≡ unit_of (item == y) + count y (a ++ (pos ∷ b))
unfolding count
count_spliced y item pos a b =
    omega (arith, count-middle y a (pos ∷ b) item, count-middle y a b pos)

-- `link_before` puts a node that the list does not have right before the node `pos`.
pub Refines-link_before :
    (l : LinkedList) (a b : List ℕ) (item pos : ℕ)
    → Refines l (a ++ (pos ∷ b))
    → count item (a ++ (pos ∷ b)) ≡ 0
    → Refines (link_before item pos l) (a ++ (item ∷ (pos ∷ b)))
unfolding link_before adopt count head_or
Refines-link_before l a b item pos r k =
    spliced_in (Chain-split l.heap none none a (pos ∷ b) r.chain)
  where
    once : (y : ℕ) → unit_of (item == y) + count y (a ++ (pos ∷ b)) ≤ 1
    once y = elim (ℕ-cases item y) [
      | inl e ↦
          omega (arith, ap unit_of (==_same item y e), ap (λ n. count n (a ++ (pos ∷ b))) e, k)
      | inr n ↦ omega (arith, ap unit_of (==_ne item y n), r.distinct y)
    ]

    spliced_in :
        Chain l.heap none a (head_or (pos ∷ b) none) × Chain l.heap (last_or none a) (pos ∷ b) none
        → Refines (link_before item pos l) (a ++ (item ∷ (pos ∷ b)))
    spliced_in (c, link _ _ n d) =
        let (same_last, same_nodes) = raw_rest l item pos n.prev in
        record {
          chain =
              subst (λ h. Chain h none (a ++ (item ∷ (pos ∷ b))) none)
                (sym (raw_heap l item pos n.prev)) (Chain-final l a b item pos r k c n.next d);
          first = raw_first l item pos n.prev ∙ first_spliced a b item pos l.first_elem r.first;
          last = same_last ∙ r.last ∙ last_spliced a b item pos;
          distinct = λ y. omega (arith, count_spliced y item pos a b, once y);
          owned = λ y. omega (
            arith,
            count_spliced y item pos a b,
            r.owned y,
            ap (λ (m : List ℕ). count y m) same_nodes,
          );
        }
