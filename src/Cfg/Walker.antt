-- ===== src/Cfg/Walker.antt =====
-- `CFGWalker::visit_block` and `CFGWalker::walk_function`, with the lists that the walkers for
-- preorder and postorder keep. The calls run on fuel: one unit for each block that is reached for
-- the first time, so that the number of blocks and one more is enough.
use enlightenedc.Prelude.{
  ℕ, zero, suc, Bool, true, false, Option, none, some, List, [], ◌∷◌, ◌++◌, ◌==◌, match_option,
  get_elem?, leb, length, if◌then◌else◌,
}

-- `visited`, `preorder` and `postorder`.
pub record State : Type 0 where
  pub visited : List ℕ
  pub preorder : List ℕ
  pub postorder : List ℕ

unfoldable pub contains : List ℕ → ℕ → Bool
contains [] x = false
contains (y ∷ ys) x = elim (y == x) [ true ↦ true | false ↦ contains ys x ]

-- `pre_visit` and the insertion into `visited`.
unfoldable pub enter : ℕ → State → State
enter blk st = record st { visited = blk ∷ st.visited; preorder = st.preorder ++ (blk ∷ []) }

unfoldable pub post_visit : ℕ → State → State
post_visit blk st = record st { postorder = st.postorder ++ (blk ∷ []) }

-- The last loop: the chain, latest block first.
unfoldable pub post_visits : List ℕ → State → State
unfolding post_visit
post_visits [] st = st
post_visits (blk ∷ chain) st = post_visits chain (post_visit blk st)

-- The loop over the successors of a block with several, where `visit` is the recursive call.
unfoldable pub visit_successors : (ℕ → State → Option State) → List ℕ → State → Option State
unfolding contains
visit_successors visit [] st = some st
visit_successors visit (succ ∷ succs) st = elim (contains st.visited succ) [
  | true ↦ visit_successors visit succs st
  | false ↦ match_option (visit succ st) none (λ st'. visit_successors visit succs st')
]

-- What follows the entry of a block, by its successors.
unfoldable pub follow : (ℕ → List ℕ → State → Option State) → List ℕ → List ℕ → State → Option State
unfolding visit_successors post_visits
follow walk [] chain st = some (post_visits chain st)
follow walk (succ ∷ []) chain st = walk succ chain st
follow walk (succ ∷ (other ∷ succs)) chain st =
    match_option (visit_successors (λ blk st'. walk blk [] st') (succ ∷ (other ∷ succs)) st) none
      (λ st'. some (post_visits chain st'))

-- The `while` loop of `visit_block`, with the chain so far.
unfoldable pub walk_chain : (ℕ → List ℕ) → ℕ → ℕ → List ℕ → State → Option State
unfolding contains enter follow post_visits
walk_chain graph zero blk chain st = none
walk_chain graph (suc fuel) blk chain st = elim (contains st.visited blk) [
  | true ↦ some (post_visits chain st)
  | false ↦ follow (walk_chain graph fuel) (graph blk) (blk ∷ chain) (enter blk st)
]

unfoldable pub visit_block : (ℕ → List ℕ) → ℕ → ℕ → State → Option State
unfolding walk_chain
visit_block graph fuel blk st = walk_chain graph fuel blk [] st

-- `walk_function` on a function of `blocks` blocks, if it is defined.
unfoldable pub walk_function : (ℕ → List ℕ) → ℕ → Bool → ℕ → State → Option State
unfolding visit_block
walk_function graph blocks is_defined entry st = elim is_defined [
  | true ↦
      visit_block graph (suc blocks) entry (record { visited = []; preorder = []; postorder = [] })
  | false ↦ some st
]

-- `VecCFGWalkerBlocksInner`: its position starts at an end of the list.
unfoldable pub next : List ℕ → Bool → ℕ → Option ℕ × ℕ
next blocks true zero = (none, 0)
next blocks true (suc idx) = (get_elem? blocks idx, idx)
next blocks false idx =
    if leb (length blocks) idx then (none, idx) else (get_elem? blocks idx, suc idx)
