-- ===== src/Examples/Lists.antt =====
-- Linked lists of few nodes.
use enlightenedc.Prelude.{refl, none, [], ◌∷◌, arith}
use enlightenedc.Cfg.Unvisited.{count}
use enlightenedc.LinkedList.{LinkedList, link_back, link_before, remove}
use enlightenedc.LinkedList.Chain.{done, head_or, last_or}
use enlightenedc.LinkedList.Refines.{Refines, Refines-remove}
use enlightenedc.LinkedList.Splice.{Refines-link_before}
use enlightenedc.LinkedList.Push.{Refines-link_back}

-- A list without nodes.
abbrev empty : LinkedList
empty = record {
  heap = λ p. record { next_node = none; prev_node = none };
  first_elem = none;
  last_elem = none;
  nodes = [];
}

empty-Refines : Refines empty []
unfolding head_or last_or count
empty-Refines = record {
  chain = done;
  first = refl;
  last = refl;
  distinct = λ x. omega arith;
  owned = λ x. refl;
}

one_node : LinkedList
one_node = link_back 4 empty

one-Refines : Refines one_node (4 ∷ [])
unfolding one_node count
one-Refines = Refines-link_back empty [] 4 empty-Refines refl

two_nodes : LinkedList
two_nodes = link_back 9 one_node

two-Refines : Refines two_nodes (4 ∷ (9 ∷ []))
unfolding two_nodes count
two-Refines = Refines-link_back one_node (4 ∷ []) 9 one-Refines refl

remove_example : Refines (remove 4 two_nodes) (9 ∷ [])
remove_example = Refines-remove two_nodes [] (9 ∷ []) 4 two-Refines

link_before_example : Refines (link_before 7 9 two_nodes) (4 ∷ (7 ∷ (9 ∷ [])))
unfolding count
link_before_example = Refines-link_before two_nodes (4 ∷ []) [] 7 9 two-Refines refl
