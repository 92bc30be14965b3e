-- ===== src/Engine/Ttree/Rotate/Nodes.antt =====
-- The nodes after each step of a rotation of workloads/no_sql_db/wasm-src/dbindex.c.
use wasm_cloud_computing_ben.Prelude.{ℕ, ◌+◌, ◌%◌, ◌≡◌, ◌≢◌, sym, ◌==◌, arith, Bool-cases, inl, inr}
use wasm_cloud_computing_ben.Engine.Ttree.{Tnode, Index, modify}
use wasm_cloud_computing_ben.Engine.Ttree.Rotate.{
  max, height_above, set_parent, set_parent_if, rotate_ll, rotate_rr,
}

-- The links of a node and the heights that it keeps.
pub record IsPlaced (n : Tnode) (parent left left_height right right_height : ℕ) : Type 0 where
  pub parent_is : n.parent_offset ≡ parent
  pub left_is : n.left_child_offset ≡ left
  pub left_height_is : n.left_subtree_height ≡ left_height
  pub right_is : n.right_child_offset ≡ right
  pub right_height_is : n.right_subtree_height ≡ right_height

-- A node that may be none, with another parent.
abbrev pub IsMoved : (ℕ → Tnode) → (ℕ → Tnode) → ℕ → ℕ → Type 0
IsMoved m m' x parent = x ≢ 0 → m' x ≡ record (m x) { parent_offset = parent }

-- `max(x, y) + 1` as it is stored in a height.
abbrev pub above : ℕ → ℕ → ℕ
above x y = (max x y + 1) % 256

pub rotate_ll-nodes :
    (i : Index) (a b e : ℕ)
    → b ≡ (i.nodes a).left_child_offset
    → e ≡ (i.nodes b).right_child_offset
    → a ≢ b
    → e ≢ a
    → e ≢ b
    → let (r, i') = rotate_ll i a in
      let A = i.nodes a in
      let B = i.nodes b in
      (r ≡ b)
      × ((y : ℕ) → y ≢ a → y ≢ b → y ≢ e → i'.nodes y ≡ i.nodes y)
      × IsMoved i.nodes i'.nodes e a
      × IsPlaced (i'.nodes a) b e B.right_subtree_height A.right_child_offset A.right_subtree_height
      × IsPlaced
          (i'.nodes b)
          B.parent_offset
          B.left_child_offset
          B.left_subtree_height
          a
          (above B.right_subtree_height A.right_subtree_height)
unfolding rotate_ll set_parent_if set_parent modify height_above
rotate_ll-nodes i a b e hb he ab ea eb = elim (Bool-cases (e == 0)) [
  | inl h ↦ (sym hb, (λ y ya yb ye. ground arith), (λ ne. ground arith), ground arith, ground arith)
  | inr h ↦ (sym hb, (λ y ya yb ye. ground arith), (λ ne. ground arith), ground arith, ground arith)
]

pub rotate_rr-nodes :
    (i : Index) (a c d : ℕ)
    → c ≡ (i.nodes a).right_child_offset
    → d ≡ (i.nodes c).left_child_offset
    → a ≢ c
    → d ≢ a
    → d ≢ c
    → let (r, i') = rotate_rr i a in
      let A = i.nodes a in
      let C = i.nodes c in
      (r ≡ c)
      × ((y : ℕ) → y ≢ a → y ≢ c → y ≢ d → i'.nodes y ≡ i.nodes y)
      × IsMoved i.nodes i'.nodes d a
      × IsPlaced (i'.nodes a) c A.left_child_offset A.left_subtree_height d C.left_subtree_height
      × IsPlaced
          (i'.nodes c)
          C.parent_offset
          a
          (above A.left_subtree_height C.left_subtree_height)
          C.right_child_offset
          C.right_subtree_height
unfolding rotate_rr set_parent_if set_parent modify height_above
rotate_rr-nodes i a c d hc hd ac da dc = elim (Bool-cases (d == 0)) [
  | inl h ↦ (sym hc, (λ y ya yb ye. ground arith), (λ ne. ground arith), ground arith, ground arith)
  | inr h ↦ (sym hc, (λ y ya yb ye. ground arith), (λ ne. ground arith), ground arith, ground arith)
]
