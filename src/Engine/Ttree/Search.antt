-- ===== src/Engine/Ttree/Search.antt =====
-- The search for the node that bounds a key, of workloads/no_sql_db/wasm-src/dbindex.c.
pub mod Last
pub mod Rightmost
pub mod Found
use wasm_cloud_computing_ben.Prelude.{ℕ, zero, suc, if◌then◌else◌, ◌==◌, not, Option, none, some}
use wasm_cloud_computing_ben.Engine.Compare.{Comparison}
use wasm_cloud_computing_ben.Engine.Query.{is_less, is_greater}
use wasm_cloud_computing_ben.Engine.Ttree.{
  Index, Bounding, really_bounding_node, dead_end_left_not_bounding, dead_end_right_not_bounding,
}

-- The kind of the node that a search ends at, and the node; `none` is a lack of fuel.
module _ (compare : ℕ → ℕ → Comparison) (key : ℕ) where
  unfoldable pub wg_search_ttree_rightmost : ℕ → Index → ℕ → Option ℕ → Option (Bounding × ℕ)
  wg_search_ttree_rightmost zero i root rb_node = none
  wg_search_ttree_rightmost (suc fuel) i root rb_node =
      let node = i.nodes root in
      let on_left = wg_search_ttree_rightmost fuel i node.left_child_offset rb_node in
      let on_right = wg_search_ttree_rightmost fuel i node.right_child_offset (some root) in
      if is_less (compare key node.current_min)
      then if not (node.left_child_offset == 0) then on_left else elim rb_node [
        | none ↦ some (dead_end_left_not_bounding, root)
        | some rb ↦
            if is_greater (compare key (i.nodes rb).current_max)
            then some (dead_end_left_not_bounding, root)
            else some (really_bounding_node, rb)
      ]
      else if not (node.right_child_offset == 0)
      then on_right
      else if is_greater (compare key node.current_max)
      then some (dead_end_right_not_bounding, root)
      else some (really_bounding_node, root)

  unfoldable pub wg_search_ttree_leftmost : ℕ → Index → ℕ → Option ℕ → Option (Bounding × ℕ)
  wg_search_ttree_leftmost zero i root lb_node = none
  wg_search_ttree_leftmost (suc fuel) i root lb_node =
      let node = i.nodes root in
      let on_left = wg_search_ttree_leftmost fuel i node.left_child_offset (some root) in
      let on_right = wg_search_ttree_leftmost fuel i node.right_child_offset lb_node in
      if is_greater (compare key node.current_max)
      then if not (node.right_child_offset == 0) then on_right else elim lb_node [
        | none ↦ some (dead_end_right_not_bounding, root)
        | some lb ↦
            if is_less (compare key (i.nodes lb).current_min)
            then some (dead_end_right_not_bounding, root)
            else some (really_bounding_node, lb)
      ]
      else if not (node.left_child_offset == 0)
      then on_left
      else if is_less (compare key node.current_min)
      then some (dead_end_left_not_bounding, root)
      else some (really_bounding_node, root)
