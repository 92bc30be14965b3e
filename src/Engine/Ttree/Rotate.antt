-- ===== src/Engine/Ttree/Rotate.antt =====
-- The rotations of the T-tree of workloads/no_sql_db/wasm-src/dbindex.c: `db_rotate_ttree`, and the choice
-- of the case.
pub mod Nodes
pub mod Double
pub mod Made
pub mod Trees
pub mod Crossed
pub mod Above
pub mod Replaced
pub mod Rebalance
use wasm_cloud_computing_ben.Prelude.{
  ℕ, ◌+◌, ◌-◌, ◌%◌, Bool, if◌then◌else◌, ltb, leb, ◌==◌, ◌&&◌, not,
}
use wasm_cloud_computing_ben.Engine.Ttree.{wg_tnode_array_size, Tnode, Index, modify}

abbrev pub max : ℕ → ℕ → ℕ
max a b = if ltb b a then a else b

-- `max(...)+1` of a node's heights, as it is stored in a height.
unfoldable pub height_above : Tnode → ℕ
height_above n = (max n.left_subtree_height n.right_subtree_height + 1) % 256

unfoldable pub set_parent : Index → ℕ → ℕ → Index
set_parent i offset parent = modify i offset (λ n. record n { parent_offset = parent })

-- `if(offset != 0) ...->parent_offset = parent`
unfoldable pub set_parent_if : Index → ℕ → ℕ → Index
set_parent_if i offset parent = if offset == 0 then i else set_parent i offset parent

pub data Overweight : Type 0 where
  ll_case lr_case rl_case rr_case : Overweight

unfoldable pub db_which_branch_causes_overweight : Index → ℕ → Overweight
db_which_branch_causes_overweight i root =
    let node = i.nodes root in
    let left = i.nodes node.left_child_offset in
    let right = i.nodes node.right_child_offset in
    if ltb node.right_subtree_height node.left_subtree_height
    then if leb left.right_subtree_height left.left_subtree_height then ll_case else lr_case
    else if ltb right.right_subtree_height right.left_subtree_height
    then rl_case
    else rr_case

-- The rotations, up to the new root of the subtree.
unfoldable pub rotate_ll : Index → ℕ → ℕ × Index
rotate_ll i root =
    let left_child = (i.nodes root).left_child_offset in
    let right_grandchild = (i.nodes left_child).right_child_offset in
    let right_grandchild_height = (i.nodes left_child).right_subtree_height in
    let i1 = modify i root (λ n. record n {
      left_child_offset = right_grandchild;
      left_subtree_height = right_grandchild_height;
    }) in
    let i2 = set_parent_if i1 right_grandchild root in
    let i3 = modify i2 left_child (λ n. record n {
      right_child_offset = root;
      right_subtree_height = height_above (i2.nodes root);
    }) in
    (left_child, set_parent i3 root left_child)

unfoldable pub rotate_rr : Index → ℕ → ℕ × Index
rotate_rr i root =
    let right_child = (i.nodes root).right_child_offset in
    let left_grandchild = (i.nodes right_child).left_child_offset in
    let left_grandchild_height = (i.nodes right_child).left_subtree_height in
    let i1 = modify i root (λ n. record n {
      right_child_offset = left_grandchild;
      right_subtree_height = left_grandchild_height;
    }) in
    let i2 = set_parent_if i1 left_grandchild root in
    let i3 = modify i2 right_child (λ n. record n {
      left_child_offset = root;
      left_subtree_height = height_above (i2.nodes root);
    }) in
    (right_child, set_parent i3 root right_child)

-- The test for the rotation that moves values into a leaf with one element.
unfoldable pub is_special : Tnode → Tnode → Bool
is_special ee bb =
    ee.number_of_elements == 1
    && ee.right_child_offset == 0
    && ee.left_child_offset == 0
    && bb.number_of_elements == wg_tnode_array_size

-- The children of `e` go to the root and to `b`.
unfoldable pub detach_lr : Index → ℕ → ℕ → ℕ → Index
detach_lr i root b e =
    let ee = i.nodes e in
    let i1 = modify i root (λ n. record n {
      left_child_offset = ee.right_child_offset;
      left_subtree_height = ee.right_subtree_height;
    }) in
    let i2 = set_parent_if i1 ee.right_child_offset root in
    let i3 = modify i2 b (λ n. record n {
      right_child_offset = ee.left_child_offset;
      right_subtree_height = ee.left_subtree_height;
    }) in
    set_parent_if i3 ee.left_child_offset b

unfoldable pub detach_rl : Index → ℕ → ℕ → ℕ → Index
detach_rl i root b e =
    let ee = i.nodes e in
    let i1 = modify i root (λ n. record n {
      right_child_offset = ee.left_child_offset;
      right_subtree_height = ee.left_subtree_height;
    }) in
    let i2 = set_parent_if i1 ee.left_child_offset root in
    let i3 = modify i2 b (λ n. record n {
      left_child_offset = ee.right_child_offset;
      left_subtree_height = ee.right_subtree_height;
    }) in
    set_parent_if i3 ee.right_child_offset b

-- `b` and the root become the children of `e`.
unfoldable pub attach_lr : Index → ℕ → ℕ → ℕ → Index
attach_lr i root b e =
    let i6 =
      modify i e
        (λ n. record n { left_child_offset = b; left_subtree_height = height_above (i.nodes b) }) in
    let i7 = set_parent i6 b e in
    let i8 = modify i7 e (λ n. record n {
      right_child_offset = root;
      right_subtree_height = height_above (i7.nodes root);
    }) in
    set_parent i8 root e

unfoldable pub attach_rl : Index → ℕ → ℕ → ℕ → Index
attach_rl i root b e =
    let i6 =
      modify i e (λ n. record n {
        right_child_offset = b;
        right_subtree_height = height_above (i.nodes b);
      }) in
    let i7 = set_parent i6 b e in
    let i8 = modify i7 e (λ n. record n {
      left_child_offset = root;
      left_subtree_height = height_above (i7.nodes root);
    }) in
    set_parent i8 root e

-- The field of the index's column of a record.
module _ (field : ℕ → ℕ) where
  -- All values but the first of `bb` come before the one of `ee`.
  unfoldable pub fill_left : Index → ℕ → ℕ → Index
  fill_left i e b =
      let ee = i.nodes e in
      let bb = i.nodes b in
      let values : ℕ → ℕ = λ k.
        if k == bb.number_of_elements - 1
        then ee.array_of_values 0
        else if ltb k (bb.number_of_elements - 1)
        then bb.array_of_values (k + 1)
        else ee.array_of_values k in
      let i1 = modify i e (λ n. record n {
        array_of_values = values;
        number_of_elements = bb.number_of_elements;
        current_min = field (values 0);
      }) in
      modify i1 b (λ n. record n { number_of_elements = 1; current_max = bb.current_min })

  -- All values but the last of `bb` come behind the one of `ee`.
  unfoldable pub fill_right : Index → ℕ → ℕ → Index
  fill_right i e b =
      let ee = i.nodes e in
      let bb = i.nodes b in
      let values : ℕ → ℕ = λ k.
        if not (k == 0) && ltb k bb.number_of_elements
        then bb.array_of_values (k - 1)
        else ee.array_of_values k in
      let i1 = modify i e (λ n. record n {
        array_of_values = values;
        number_of_elements = bb.number_of_elements;
        current_max = field (values (bb.number_of_elements - 1));
      }) in
      modify i1 b (λ n. record n {
        array_of_values = λ k.
            if k == 0 then bb.array_of_values (bb.number_of_elements - 1) else bb.array_of_values k;
        number_of_elements = 1;
        current_min = bb.current_max;
      })

  unfoldable pub rotate_lr : Index → ℕ → ℕ × Index
  rotate_lr i root =
      let b = (i.nodes root).left_child_offset in
      let e = (i.nodes b).right_child_offset in
      let i4 = detach_lr i root b e in
      let i5 = if is_special (i4.nodes e) (i4.nodes b) then fill_left i4 e b else i4 in
      (e, attach_lr i5 root b e)

  unfoldable pub rotate_rl : Index → ℕ → ℕ × Index
  rotate_rl i root =
      let b = (i.nodes root).right_child_offset in
      let e = (i.nodes b).left_child_offset in
      let i4 = detach_rl i root b e in
      let i5 = if is_special (i4.nodes e) (i4.nodes b) then fill_right i4 e b else i4 in
      (e, attach_rl i5 root b e)

  -- What is above the subtree: the index header, or the node `grandparent`.
  unfoldable pub fix_grandparent : Index → ℕ → ℕ → ℕ → Index
  fix_grandparent i grandparent initialrootoffset r =
      let i1 = set_parent i r grandparent in
      if grandparent == 0
      then record i1 { root_node = r }
      else if (i1.nodes grandparent).left_child_offset == initialrootoffset
      then modify i1 grandparent
          (λ n. record n { left_child_offset = r; left_subtree_height = height_above (i1.nodes r) })
      else modify i1 grandparent (λ n. record n {
        right_child_offset = r;
        right_subtree_height = height_above (i1.nodes r);
      })

  unfoldable pub rotate : Index → ℕ → Overweight → ℕ × Index
  rotate i root ll_case = rotate_ll i root
  rotate i root lr_case = rotate_lr i root
  rotate i root rl_case = rotate_rl i root
  rotate i root rr_case = rotate_rr i root

  unfoldable pub db_rotate_ttree : Index → ℕ → Overweight → Index
  db_rotate_ttree i root overw =
      let (r, i') = rotate i root overw in fix_grandparent i' (i.nodes root).parent_offset root r
