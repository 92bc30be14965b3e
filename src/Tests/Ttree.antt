-- ===== src/Tests/Ttree.antt =====
-- A T-tree with a node 30 at the root, 20 on its left and 10 on the left of that: the root is out of
-- balance. The node at 10 holds the values 1 to 2, the one at 20 the values 3 to 4, the root 5 to 6.
use wasm_cloud_computing_ben.Prelude.{
  ℕ, ◌+◌, ◌≡◌, List, ◌++◌, ◌∷◌, All, true, ◌==◌, ltb, if◌then◌else◌, refl, inl, none, some, arith,
}
use wasm_cloud_computing_ben.Engine.Compare.{Comparison, flip, wg_equal, greater_if}
use wasm_cloud_computing_ben.Engine.Ttree.{
  Tnode, Index, Bounding, really_bounding_node, dead_end_left_not_bounding,
}
use wasm_cloud_computing_ben.Engine.Ttree.Shape.{
  Tree, tip, fork, in_order, height, IsBalanced, IsIn, IsDistinct, IsTree,
}
use wasm_cloud_computing_ben.Engine.Ttree.Rotate.Rebalance.{IsRebalanced, db_rotate_ttree-Replaces}
use wasm_cloud_computing_ben.Engine.Query.{is_less, is_greater}
use wasm_cloud_computing_ben.Engine.Ttree.Insert.{add_to_bounding, add_to_full, add_at_end}
use wasm_cloud_computing_ben.Engine.Ttree.Insert.Ends.{add_at_end-IsNode}
use wasm_cloud_computing_ben.Engine.Ttree.Insert.Sync.{
  records_of, StartsNotLess, IsNode, add_to_bounding-IsNode,
}
use wasm_cloud_computing_ben.Engine.Ttree.Insert.Full.{EndsNotGreater, add_to_full-IsNode}
use wasm_cloud_computing_ben.Engine.Ttree.Search.{wg_search_ttree_rightmost}
use wasm_cloud_computing_ben.Engine.Ttree.Search.Last.{Pairwise}
use wasm_cloud_computing_ben.Engine.Ttree.Search.Rightmost.{bounding_node, Ascends}
use wasm_cloud_computing_ben.Engine.Ttree.Search.Found.{
  IsLastBounding, wg_search_ttree_rightmost_lem,
}

abbrev node : ℕ → ℕ → ℕ → ℕ → ℕ → ℕ → Tnode
node parent left left_height right right_height low = record {
  parent_offset = parent;
  current_max = low + 1;
  current_min = low;
  number_of_elements = 2;
  left_subtree_height = left_height;
  right_subtree_height = right_height;
  array_of_values = λ k. low + k;
  left_child_offset = left;
  right_child_offset = right;
  succ_offset = 0;
  pred_offset = 0;
}

abbrev index : Index
index = record {
  nodes = λ x.
      if x == 10
      then node 20 0 0 0 0 1
      else if x == 20
      then node 30 10 1 0 0 3
      else node 0 20 2 0 0 5;
  root_node = 30;
}

abbrev tree : Tree
tree = fork (fork (fork tip 10 tip) 20 tip) 30 tip

tree-IsTree : IsTree index.nodes 0 30 tree
unfolding IsTree height
tree-IsTree = (
  refl,
  (λ e. omega arith),
  refl,
  refl,
  refl,
  (
    refl,
    (λ e. omega arith),
    refl,
    refl,
    refl,
    (refl, (λ e. omega arith), refl, refl, refl, refl, refl),
    refl,
  ),
  refl,
)

tree-IsDistinct : IsDistinct tree
unfolding IsDistinct IsIn
tree-IsDistinct = ground arith

not_in : IsIn 0 tree → ⊥
unfolding IsIn
not_in h = ground arith

db_rotate_ttree-Replaces_example : IsRebalanced (λ v. v) index 0 30 tree
unfolding height IsBalanced
db_rotate_ttree-Replaces_example =
    db_rotate_ttree-Replaces (λ v. v) index 0 30 (fork (fork tip 10 tip) 20 tip) tip tree-IsTree
      tree-IsDistinct not_in (omega arith) (inl refl) (ground arith) tt

-- The keys are the values themselves.
abbrev compare_keys : ℕ → ℕ → Comparison
compare_keys x y = if x == y then wg_equal else greater_if (ltb y x)

ascends : Pairwise (Ascends compare_keys 4 index) (in_order tree)
unfolding in_order
ascends = ground arith

wg_search_ttree_rightmost_lem_example :
    (answer : Bounding × ℕ) × (wg_search_ttree_rightmost compare_keys 4 3 index 30 none
      ≡ some answer)
    × IsLastBounding compare_keys 4 index (bounding_node answer) (in_order tree)
unfolding height
wg_search_ttree_rightmost_lem_example =
    wg_search_ttree_rightmost_lem compare_keys 4 index tree 3 0 30 tree-IsTree (λ e. omega arith)
      (omega arith) ascends

-- The value 4 is in the node at 20.
found : wg_search_ttree_rightmost compare_keys 4 3 index 30 none ≡ some (really_bounding_node, 20)
unfolding wg_search_ttree_rightmost
found = refl

-- A record is its own key. A full node with the records 1 to 8.
abbrev full_node : Tnode
full_node = record {
  parent_offset = 0;
  current_max = 8;
  current_min = 1;
  number_of_elements = 8;
  left_subtree_height = 0;
  right_subtree_height = 0;
  array_of_values = λ k. k + 1;
  left_child_offset = 0;
  right_child_offset = 0;
  succ_offset = 0;
  pred_offset = 0;
}

keys-flip : (x y : ℕ) → compare_keys y x ≡ flip (compare_keys x y)
keys-flip x y = ground arith

add_to_bounding-IsNode_example :
    let node' = add_to_bounding compare_keys (λ r. r) (node 0 0 0 0 0 5) 6 6 in
    (xs : List ℕ) × (ys : List ℕ) × (records_of (node 0 0 0 0 0 5) ≡ xs ++ ys)
    × (records_of node' ≡ xs ++ (6 ∷ ys))
    × All (λ r. is_less (compare_keys r 6) ≡ true) xs
    × StartsNotLess compare_keys (λ r. r) 6 ys
    × IsNode compare_keys (λ r. r) node'
add_to_bounding-IsNode_example =
    add_to_bounding-IsNode compare_keys (λ r. r) (node 0 0 0 0 0 5) 6 6 keys-flip
      (record { some_record = omega arith; min_is = refl; max_is = refl }) refl refl

add_to_full-IsNode_example :
    let node' = add_to_full compare_keys (λ r. r) full_node 5 5 in
    (xs : List ℕ) × (ys : List ℕ) × (records_of full_node ≡ 1 ∷ (xs ++ ys))
    × (records_of node' ≡ xs ++ (5 ∷ ys))
    × EndsNotGreater compare_keys (λ r. r) 5 xs
    × All (λ r. is_greater (compare_keys r 5) ≡ true) ys
    × IsNode compare_keys (λ r. r) node'
add_to_full-IsNode_example =
    add_to_full-IsNode compare_keys (λ r. r) full_node 5 5
      (record { some_record = omega arith; min_is = refl; max_is = refl }) refl refl

add_at_end-IsNode_example :
    let node' =
      add_at_end compare_keys (λ r. r) dead_end_left_not_bounding (node 0 0 0 0 0 5) 3 3 in
    (records_of node' ≡ 3 ∷ records_of (node 0 0 0 0 0 5)) × IsNode compare_keys (λ r. r) node'
add_at_end-IsNode_example =
    add_at_end-IsNode compare_keys (λ r. r) dead_end_left_not_bounding (node 0 0 0 0 0 5) 3 3
      (record { some_record = omega arith; min_is = refl; max_is = refl }) refl
