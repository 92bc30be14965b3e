-- ===== src/Engine/Ttree/Insert.antt =====
-- A record put into a node of the T-tree, the parts of `ttree_add_row` of
-- workloads/no_sql_db/wasm-src/dbindex.c that change one node. `compare` is WG_COMPARE on encoded values,
-- `field` the field of the index's column of a record.
pub mod Slots
pub mod Sync
pub mod Full
pub mod Ends
use wasm_cloud_computing_ben.Prelude.{ℕ, zero, suc, ◌+◌, ◌-◌, if◌then◌else◌, ◌==◌}
use wasm_cloud_computing_ben.Engine.{store_word}
use wasm_cloud_computing_ben.Engine.Compare.{Comparison}
use wasm_cloud_computing_ben.Engine.Query.{is_less, is_greater}
use wasm_cloud_computing_ben.Engine.Ttree.{
  wg_tnode_array_size, Tnode, Bounding, dead_end_left_not_bounding,
}

-- `for(j=i+k; j>i; j--) array_of_values[j] = array_of_values[j-1];`
unfoldable pub push_right : ℕ → (ℕ → ℕ) → ℕ → ℕ → ℕ
push_right zero a i = a
push_right (suc k) a i = push_right k (store_word a (i + suc k) (a (i + k))) i

-- `k` rounds of `array_of_values[j] = array_of_values[j+1];` from `j` on.
unfoldable pub push_left : ℕ → (ℕ → ℕ) → ℕ → ℕ → ℕ
push_left zero a j = a
push_left (suc k) a j = push_left k (store_word a j (a (j + 1))) (j + 1)

module _ (compare : ℕ → ℕ → Comparison) (field : ℕ → ℕ) where
  -- The first of the `n` slots from `i` on whose value is not less, or the slot behind them.
  unfoldable pub slot_up : ℕ → (ℕ → ℕ) → ℕ → ℕ → ℕ
  slot_up zero a newvalue i = i
  slot_up (suc n) a newvalue i =
      let rest = slot_up n a newvalue (i + 1) in
      if is_less (compare (field (a i)) newvalue) then rest else i

  -- The last of the slots down from `i` whose value is not greater, or 0.
  unfoldable pub slot_down : ℕ → (ℕ → ℕ) → ℕ → ℕ
  slot_down zero a newvalue = 0
  slot_down (suc i) a newvalue =
      let rest = slot_down i a newvalue in
      if is_greater (compare (field (a (suc i))) newvalue) then rest else suc i

  -- The bounding node has room.
  unfoldable pub add_to_bounding : Tnode → ℕ → ℕ → Tnode
  add_to_bounding node rec newvalue =
      let n = node.number_of_elements in
      let i = slot_up n node.array_of_values newvalue 0 in
      record node {
        array_of_values = store_word (push_right (n - i) node.array_of_values i) i rec;
        number_of_elements = n + 1;
        current_min = if i == 0 then newvalue else node.current_min;
      }

  -- The bounding node is full: its first record makes room for the new one.
  unfoldable pub add_to_full : Tnode → ℕ → ℕ → Tnode
  add_to_full node rec newvalue =
      let i = slot_down (wg_tnode_array_size - 1) node.array_of_values newvalue in
      let values = store_word (push_left i node.array_of_values 0) i rec in
      record node {
        array_of_values = values;
        current_min = if i == 0 then newvalue else field (values 0);
        current_max =
            if i == 0
            then node.current_max
            else if i == wg_tnode_array_size - 1
            then newvalue
            else node.current_max;
      }

  -- No node bounds the value, and the node where the search ended has room.
  unfoldable pub add_at_end : Bounding → Tnode → ℕ → ℕ → Tnode
  add_at_end boundtype node rec newvalue =
      let n = node.number_of_elements in
      let a = node.array_of_values in
      let added : Tnode = elim boundtype [
        | dead_end_left_not_bounding ↦ record node {
          array_of_values = store_word (push_right n a 0) 0 rec;
          current_min = newvalue;
        }
        | _ ↦ record node { array_of_values = store_word a n rec; current_max = newvalue }
      ] in
      let counted = record added { number_of_elements = n + 1 } in
      if n + 1 == 1
      then record counted { current_max = newvalue; current_min = newvalue }
      else counted

  -- The record that a full bounding node gave up, behind all of the node with the greatest lower bound.
  unfoldable pub add_behind : Tnode → ℕ → ℕ → Tnode
  add_behind node minvaluerowoffset minvalue = record node {
    array_of_values = store_word node.array_of_values node.number_of_elements minvaluerowoffset;
    number_of_elements = node.number_of_elements + 1;
    current_max = minvalue;
  }
