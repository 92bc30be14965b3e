-- ===== src/Engine/Ttree/Rotate/Above.antt =====
-- A rotated subtree below the node that the old one was below, in the T-tree of workloads/no_sql_db/wasm-src/dbindex.c.
use wasm_cloud_computing_ben.Prelude.{ℕ, ◌<◌, ◌≡◌, ◌≢◌, inl, inr, arith, ◌==◌, Bool-cases}
use wasm_cloud_computing_ben.Engine.Ttree.{Index, modify}
use wasm_cloud_computing_ben.Engine.Ttree.Shape.{
  Tree, fork, height, IsIn, HasOwnRoot, IsTree, IsTree-moved,
}
use wasm_cloud_computing_ben.Engine.Ttree.Rotate.{height_above, set_parent, fix_grandparent}

-- What the node above a subtree, or the index header, says of its root.
abbrev pub IsLinkedAbove : Index → Index → ℕ → ℕ → ℕ → ℕ → Type 0
IsLinkedAbove i j parent old new h =
    (parent ≡ 0 → j.root_node ≡ new)
    × (parent ≢ 0
        → (i.nodes parent).left_child_offset ≡ old
        → ((j.nodes parent).left_child_offset ≡ new) × ((j.nodes parent).left_subtree_height ≡ h))
    × (parent ≢ 0
        → (i.nodes parent).left_child_offset ≢ old
        → ((j.nodes parent).right_child_offset ≡ new) × ((j.nodes parent).right_subtree_height ≡ h))

fixed_nodes :
    (field : ℕ → ℕ) (i : Index) (p a x h : ℕ)
    → p ≢ x
    → height_above (i.nodes x) ≡ h
    → let j = fix_grandparent field i p a x in
      (j.nodes x ≡ record (i.nodes x) { parent_offset = p })
      × ((y : ℕ) → y ≢ x → (p ≢ 0 → y ≢ p) → j.nodes y ≡ i.nodes y)
      × IsLinkedAbove i j p a x h
unfolding fix_grandparent set_parent modify height_above
fixed_nodes field i p a x h px hh = elim (Bool-cases (p == 0)) [
  | inl top ↦ (
    ground arith,
    (λ y yx yp. ground arith),
    ((λ e. ground arith), (λ ne l. ground arith), (λ ne l. ground arith)),
  )
  | inr below ↦ elim (Bool-cases ((i.nodes p).left_child_offset == a)) [
    | inl left ↦ (
      ground arith,
      (λ y yx yp. ground arith),
      ((λ e. ground arith), (λ ne l. ground arith), (λ ne l. ground arith)),
    )
    | inr right ↦ (
      ground arith,
      (λ y yx yp. ground arith),
      ((λ e. ground arith), (λ ne l. ground arith), (λ ne l. ground arith)),
    )
  ]
]

pub same-IsIn : (y p : ℕ) (t : Tree) → y ≡ p → IsIn y t → IsIn p t
same-IsIn y p t e h = rw (← e) h

kept_height :
    (i : Index) (q x : ℕ) (l r : Tree)
    → IsTree i.nodes q x (fork l x r)
    → height (fork l x r) < 256
    → height_above (i.nodes x) ≡ height (fork l x r)
unfolding IsTree height height_above
kept_height i q x l r (_, _, _, hl, hr, _, _) small = rw (hl, hr) (ground arith)

-- The new subtree below the node that the old one was below.
pub fixed-IsTree :
    (field : ℕ → ℕ) (i : Index) (p a q x : ℕ) (l r : Tree)
    → let t = fork l x r in
      IsTree i.nodes q x t
      → HasOwnRoot t
      → (IsIn p t → ⊥)
      → height t < 256
      → let j = fix_grandparent field i p a x in
        IsTree j.nodes p x t
        × ((y : ℕ) → y ≢ x → (p ≢ 0 → y ≢ p) → j.nodes y ≡ i.nodes y)
        × IsLinkedAbove i j p a x (height t)
unfolding IsIn
fixed-IsTree field i p a q x l r tree own out small =
    let (moved, others, linked) =
      fixed_nodes field i p a x (height (fork l x r)) (λ e. out (inr (inl e)))
        (kept_height i q x l r tree small) in
    (
      IsTree-moved i.nodes (fix_grandparent field i p a x).nodes q p x (fork l x r) tree own
          (λ y h ne. others y ne (λ p0 e. out (same-IsIn y p (fork l x r) e h))) (λ ne. moved),
      others,
      linked,
    )
