-- ===== src/LinkedList.antt =====
-- include/ds/linkedlist.hpp: the intrusive doubly-linked list. A node is its address; the links of
-- all nodes are a heap. `nodes` holds the addresses that the list owns.
pub mod Chain
pub mod Refines
pub mod Push
pub mod Splice
use enlightenedc.Prelude.{
  ℕ, zero, suc, Bool, true, false, Option, none, some, List, [], ◌∷◌, ◌++◌, ◌==◌, if◌then◌else◌,
  match_option, length,
}

pub record Links : Type 0 where
  pub next_node : Option ℕ
  pub prev_node : Option ℕ

abbrev pub Heap : Type 0
Heap = ℕ → Links

pub record LinkedList : Type 0 where
  pub heap : Heap
  pub first_elem : Option ℕ
  pub last_elem : Option ℕ
  pub nodes : List ℕ

-- `p->next_node = q` and `p->prev_node = q`.
unfoldable pub write_next : ℕ → Option ℕ → Heap → Heap
write_next p q h a = if a == p then record (h a) { next_node = q } else h a

unfoldable pub write_prev : ℕ → Option ℕ → Heap → Heap
write_prev p q h a = if a == p then record (h a) { prev_node = q } else h a

-- The same where `p` may be null, in which case nothing is written.
unfoldable pub write_next_at : Option ℕ → Option ℕ → Heap → Heap
unfolding write_next
write_next_at none q h = h
write_next_at (some p) q h = write_next p q h

unfoldable pub write_prev_at : Option ℕ → Option ℕ → Heap → Heap
unfolding write_prev
write_prev_at none q h = h
write_prev_at (some p) q h = write_prev p q h

-- `first_elem = q` where there is no node before, and `last_elem = q` where there is none after.
unfoldable pub or_else_set : Option ℕ → Option ℕ → Option ℕ → Option ℕ
or_else_set none q old = q
or_else_set (some p) q old = old

unfoldable pub adopt : ℕ → LinkedList → LinkedList
adopt item l = record l { nodes = item ∷ l.nodes }

unfoldable pub link_back : ℕ → LinkedList → LinkedList
unfolding write_next write_prev write_next_at or_else_set adopt
link_back item l = adopt item (record l {
  heap =
      write_next_at l.last_elem (some item)
        (write_next item none (write_prev item l.last_elem l.heap));
  first_elem = or_else_set l.last_elem (some item) l.first_elem;
  last_elem = some item;
})

unfoldable pub link_front : ℕ → LinkedList → LinkedList
unfolding write_next write_prev write_prev_at or_else_set adopt
link_front item l = adopt item (record l {
  heap =
      write_prev_at l.first_elem (some item)
        (write_prev item none (write_next item l.first_elem l.heap));
  last_elem = or_else_set l.first_elem (some item) l.last_elem;
  first_elem = some item;
})

unfoldable pub unlink : ℕ → LinkedList → LinkedList
unfolding write_next_at write_prev_at or_else_set
unlink item l =
    let prev = (l.heap item).prev_node in
    let next = (l.heap item).next_node in
    record l {
      heap = write_prev_at next prev (write_next_at prev next l.heap);
      first_elem = or_else_set prev next l.first_elem;
      last_elem = or_else_set next prev l.last_elem;
    }

-- Splicing a node in before another one.
unfoldable pub link_before_raw : ℕ → ℕ → LinkedList → LinkedList
unfolding write_next write_prev write_next_at or_else_set
link_before_raw item pos l =
    let prev = (l.heap pos).prev_node in
    record l {
      heap =
          write_next_at prev (some item)
            (write_prev pos (some item) (write_prev item prev (write_next item (some pos) l.heap)));
      first_elem = or_else_set prev (some item) l.first_elem;
    }

unfoldable pub link_before : ℕ → ℕ → LinkedList → LinkedList
unfolding link_before_raw adopt
link_before item pos l = adopt item (link_before_raw item pos l)

unfoldable pub erase : ℕ → List ℕ → List ℕ
erase item [] = []
erase item (p ∷ ps) = let rest = erase item ps in if p == item then rest else p ∷ rest

unfoldable pub remove : ℕ → LinkedList → LinkedList
unfolding unlink erase
remove item l = let l' = unlink item l in record l' { nodes = erase item l'.nodes }

-- `none` is `std::out_of_range`.
unfoldable pub pop_back : LinkedList → Option LinkedList
unfolding remove
pop_back l = match_option l.last_elem none (λ p. some (remove p l))

unfoldable pub pop_front : LinkedList → Option LinkedList
unfolding remove
pop_front l = match_option l.first_elem none (λ p. some (remove p l))
