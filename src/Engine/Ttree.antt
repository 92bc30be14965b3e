-- ===== src/Engine/Ttree.antt =====
-- The T-tree index of workloads/no_sql_db/wasm-src/dbindex.c and dbindex.h: its nodes, the search for the
-- node that bounds a key, and the rotations. The nodes are objects of their own area, so the model keeps
-- them apart from the words; an offset of 0 stands for none. TTREE_CHAINED_NODES and
-- TTREE_SINGLE_COMPARE are compiled in. A height is an `unsigned char`.
pub mod Shape
pub mod Rotate
pub mod Search
pub mod Insert
use wasm_cloud_computing_ben.Prelude.{ℕ, if◌then◌else◌, ◌==◌}

abbrev pub wg_tnode_array_size : ℕ
wg_tnode_array_size = 8

-- `struct wg_tnode`
pub record Tnode : Type 0 where
  pub parent_offset : ℕ
  pub current_max : ℕ
  pub current_min : ℕ
  pub number_of_elements : ℕ
  pub left_subtree_height : ℕ
  pub right_subtree_height : ℕ
  pub array_of_values : ℕ → ℕ
  pub left_child_offset : ℕ
  pub right_child_offset : ℕ
  pub succ_offset : ℕ
  pub pred_offset : ℕ

-- The nodes, and the root of the index header.
pub record Index : Type 0 where
  pub nodes : ℕ → Tnode
  pub root_node : ℕ

unfoldable pub modify : Index → ℕ → (Tnode → Tnode) → Index
modify i offset f = record i { nodes = λ x. if x == offset then f (i.nodes x) else i.nodes x }

pub data Bounding : Type 0 where
  really_bounding_node dead_end_left_not_bounding dead_end_right_not_bounding : Bounding
