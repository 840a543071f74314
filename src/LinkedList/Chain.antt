-- ===== src/LinkedList/Chain.antt =====
-- Nodes that are linked in the order of a list.
use enlightenedc.Prelude.{
  ℕ, ◌≤◌, ◌≡◌, ◌≢◌, refl, sym, ap, ◌∙◌, Option, none, some, List, [], ◌∷◌, ◌++◌, arith, ==_same,
  ==_ne,
}
use enlightenedc.Cfg.Unvisited.{count, unit_of}
use enlightenedc.LinkedList.{Links, Heap, write_next, write_prev, write_next_at, write_prev_at}

-- The first of a list, or what follows it; the last of a list, or what precedes it.
unfoldable pub head_or : List ℕ → Option ℕ → Option ℕ
head_or [] after = after
head_or (x ∷ xs) after = some x

unfoldable pub last_or : Option ℕ → List ℕ → Option ℕ
last_or before [] = before
last_or before (x ∷ xs) = last_or (some x) xs

pub record Node (h : Heap) (x : ℕ) (before after : Option ℕ) : Type 0 where
  pub prev : (h x).prev_node ≡ before
  pub next : (h x).next_node ≡ after

-- The nodes of `xs` are linked between `before` and `after`.
pub data Chain (h : Heap) : Option ℕ → List ℕ → Option ℕ → Type 0 where
  done : {before after : Option ℕ} → Chain h before [] after
  link :
      {before after : Option ℕ} (x : ℕ) (xs : List ℕ)
      → Node h x before (head_or xs after)
      → Chain h (some x) xs after
      → Chain h before (x ∷ xs) after

-- A chain does not see nodes that it lacks.
pub Chain-frame :
    (h h' : Heap) (before after : Option ℕ) (xs : List ℕ)
    → ((x : ℕ) → 1 ≤ count x xs → h' x ≡ h x)
    → Chain h before xs after
    → Chain h' before xs after
unfolding count
Chain-frame h h' before after [] same c = done
Chain-frame h h' before after (x ∷ xs) same (link _ _ n c) =
    let here = same x (omega (arith, ap unit_of (==_same x x refl))) in
    link x xs
      (record {
        prev = ap (λ (l : Links). l.prev_node) here ∙ n.prev;
        next = ap (λ (l : Links). l.next_node) here ∙ n.next;
      })
      (Chain-frame h h' (some x) after xs (λ y p. same y (omega (arith, p))) c)

head_or-append :
    (xs ys : List ℕ) (after : Option ℕ) → head_or xs (head_or ys after) ≡ head_or (xs ++ ys) after
unfolding head_or
head_or-append [] ys after = refl
head_or-append (x ∷ xs) ys after = refl

pub Chain-append :
    (h : Heap) (before after : Option ℕ) (xs ys : List ℕ)
    → Chain h before xs (head_or ys after)
    → Chain h (last_or before xs) ys after
    → Chain h before (xs ++ ys) after
unfolding last_or
Chain-append h before after [] ys done d = d
Chain-append h before after (x ∷ xs) ys (link _ _ n c) d =
    link x (xs ++ ys) (record { prev = n.prev; next = n.next ∙ head_or-append xs ys after })
      (Chain-append h (some x) after xs ys c d)

pub Chain-split :
    (h : Heap) (before after : Option ℕ) (xs ys : List ℕ)
    → Chain h before (xs ++ ys) after
    → Chain h before xs (head_or ys after) × Chain h (last_or before xs) ys after
unfolding last_or
Chain-split h before after [] ys c = (done, c)
Chain-split h before after (x ∷ xs) ys (link _ _ n c) =
    let (a, b) = Chain-split h (some x) after xs ys c in
    (link x xs (record { prev = n.prev; next = n.next ∙ sym (head_or-append xs ys after) }) a, b)

pub last_or-append :
    (before : Option ℕ) (xs ys : List ℕ)
    → last_or before (xs ++ ys) ≡ last_or (last_or before xs) ys
unfolding last_or
last_or-append before [] ys = refl
last_or-append before (x ∷ xs) ys = last_or-append (some x) xs ys

-- The last of a list that is not empty.
pub last_member :
    (y : ℕ) (r : List ℕ) → (m : ℕ) × (last_or (some y) r ≡ some m) × (1 ≤ count m (y ∷ r))
unfolding last_or count
last_member y [] = (y, refl, omega (arith, ap unit_of (==_same y y refl)))
last_member y (x ∷ r) = let (m, e, c) = last_member x r in (m, e, omega (arith, c))

pub write_next_self :
    (p : ℕ) (q : Option ℕ) (h : Heap) → write_next p q h p ≡ record (h p) { next_node = q }
unfolding write_next
write_next_self p q h = rw (==_same p p refl) refl

pub write_prev_self :
    (p : ℕ) (q : Option ℕ) (h : Heap) → write_prev p q h p ≡ record (h p) { prev_node = q }
unfolding write_prev
write_prev_self p q h = rw (==_same p p refl) refl

pub write_next_other : (p : ℕ) (q : Option ℕ) (h : Heap) (a : ℕ) → a ≢ p → write_next p q h a ≡ h a
unfolding write_next
write_next_other p q h a n = rw (==_ne a p n) refl

pub write_prev_other : (p : ℕ) (q : Option ℕ) (h : Heap) (a : ℕ) → a ≢ p → write_prev p q h a ≡ h a
unfolding write_prev
write_prev_other p q h a n = rw (==_ne a p n) refl

-- `next_node` of the last node of a chain is written.
pub Chain-write_last :
    (h : Heap) (before after v : Option ℕ) (xs : List ℕ)
    → ((x : ℕ) → count x xs ≤ 1)
    → Chain h before xs after
    → Chain (write_next_at (last_or none xs) v h) before xs v
unfolding last_or head_or count write_next_at
Chain-write_last h before after v [] one c = done
Chain-write_last h before after v (x ∷ []) one (link _ _ n c) =
    link x []
      (record {
        prev = ap (λ (l : Links). l.prev_node) (write_next_self x v h) ∙ n.prev;
        next = ap (λ (l : Links). l.next_node) (write_next_self x v h);
      })
      done
Chain-write_last h before after v (x ∷ (y ∷ r)) one (link _ _ n c) =
    let (m, e, k) = last_member y r in
    let other : x ≢ m = λ z. omega (arith, one m, ap unit_of (==_same x m z), k) in
    let same = ap (λ o. write_next_at o v h x) e ∙ write_next_other m v h x other in
    link x (y ∷ r)
      (record {
        prev = ap (λ (l : Links). l.prev_node) same ∙ n.prev;
        next = ap (λ (l : Links). l.next_node) same ∙ n.next;
      })
      (Chain-write_last h (some x) after v (y ∷ r) (λ z. omega (arith, one z)) c)

-- `prev_node` of the first node of a chain is written.
pub Chain-write_head :
    (h : Heap) (before after v : Option ℕ) (xs : List ℕ)
    → ((x : ℕ) → count x xs ≤ 1)
    → Chain h before xs after
    → Chain (write_prev_at (head_or xs none) v h) v xs after
unfolding head_or count write_prev_at
Chain-write_head h before after v [] one c = done
Chain-write_head h before after v (x ∷ xs) one (link _ _ n c) =
    link x xs
      (record {
        prev = ap (λ (l : Links). l.prev_node) (write_prev_self x v h);
        next = ap (λ (l : Links). l.next_node) (write_prev_self x v h) ∙ n.next;
      })
      (Chain-frame h (write_prev x v h) (some x) after xs
        (λ y k.
          write_prev_other x v h y (λ z. omega (arith, one y, ap unit_of (==_same x y (sym z)), k)))
        c)
