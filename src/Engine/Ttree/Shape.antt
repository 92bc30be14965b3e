-- ===== src/Engine/Ttree/Shape.antt =====
-- Trees, and the nodes of the T-tree of workloads/no_sql_db/wasm-src/dbindex.c that make one up.
use wasm_cloud_computing_ben.Prelude.{
  ℕ, suc, ◌+◌, ◌≤◌, ◌≡◌, ◌≢◌, ◌⊎◌, inl, inr, refl, sym, ◌∙◌, List, [], ◌∷◌, ◌++◌, if◌then◌else◌,
  ltb,
}
use wasm_cloud_computing_ben.Engine.Ttree.{Tnode}

pub data Tree : Type 0 where
  tip : Tree
  fork : Tree → ℕ → Tree → Tree

-- The nodes from left to right.
unfoldable pub in_order : Tree → List ℕ
in_order tip = []
in_order (fork l x r) = in_order l ++ (x ∷ in_order r)

abbrev pub greater_of : ℕ → ℕ → ℕ
greater_of a b = if ltb b a then a else b

unfoldable pub height : Tree → ℕ
height tip = 0
height (fork l x r) = suc (greater_of (height l) (height r))

-- The heights of the two children of each node differ by one at most.
unfoldable pub IsBalanced : Tree → Type 0
IsBalanced tip = Unit
IsBalanced (fork l x r) =
    (height l ≤ height r + 1) × (height r ≤ height l + 1) × IsBalanced l × IsBalanced r

unfoldable pub IsIn : ℕ → Tree → Type 0
IsIn y tip = ⊥
IsIn y (fork l x r) = IsIn y l ⊎ ((y ≡ x) ⊎ IsIn y r)

-- No node stands at two places.
unfoldable pub IsDistinct : Tree → Type 0
IsDistinct tip = Unit
IsDistinct (fork l x r) =
    ((y : ℕ) → IsIn y l → y ≢ x)
    × ((y : ℕ) → IsIn y r → y ≢ x)
    × ((y z : ℕ) → IsIn y l → IsIn z r → y ≢ z)
    × IsDistinct l
    × IsDistinct r

-- The node at an offset, its parent, its children and the heights that it keeps of them.
unfoldable pub IsTree : (ℕ → Tnode) → ℕ → ℕ → Tree → Type 0
IsTree m parent offset tip = offset ≡ 0
IsTree m parent offset (fork l x r) =
    (offset ≡ x)
    × (x ≢ 0)
    × ((m x).parent_offset ≡ parent)
    × ((m x).left_subtree_height ≡ height l)
    × ((m x).right_subtree_height ≡ height r)
    × IsTree m x (m x).left_child_offset l
    × IsTree m x (m x).right_child_offset r

pub IsTree-nonzero : (m : ℕ → Tnode) (p o y : ℕ) (t : Tree) → IsTree m p o t → IsIn y t → y ≢ 0
unfolding IsTree IsIn
IsTree-nonzero m p o y tip tree h = absurd h
IsTree-nonzero m p o y (fork l x r) (e, nonzero, _, _, _, left, right) (inl h) =
    IsTree-nonzero m x (m x).left_child_offset y l left h
IsTree-nonzero m p o y (fork l x r) (e, nonzero, _, _, _, left, right) (inr (inl h)) = rw h nonzero
IsTree-nonzero m p o y (fork l x r) (e, nonzero, _, _, _, left, right) (inr (inr h)) =
    IsTree-nonzero m x (m x).right_child_offset y r right h

pub root-IsIn : (m : ℕ → Tnode) (p o : ℕ) (t : Tree) → IsTree m p o t → o ≢ 0 → IsIn o t
unfolding IsTree IsIn
root-IsIn m p o tip tree h = absurd (h tree)
root-IsIn m p o (fork l x r) tree h = inr (inl tree.0)

-- What is not a node of a tree, and not 0, is not the offset of its root.
pub root_apart :
    (m : ℕ → Tnode) (p o y : ℕ) (t : Tree) → IsTree m p o t → (IsIn y t → ⊥) → y ≢ 0 → y ≢ o
root_apart m p o y t tree out nonzero same =
    out (rw same (root-IsIn m p o t tree (λ zero. nonzero (same ∙ zero))))

-- The nodes of a tree are kept.
pub IsTree-kept :
    (m m' : ℕ → Tnode) (p o : ℕ) (t : Tree)
    → IsTree m p o t
    → ((y : ℕ) → IsIn y t → m' y ≡ m y)
    → IsTree m' p o t
unfolding IsTree IsIn
IsTree-kept m m' p o tip tree same = tree
IsTree-kept m m' p o (fork l x r) (e, nonzero, parent, hl, hr, left, right) same =
    let kl = IsTree-kept m m' x (m x).left_child_offset l left (λ y h. same y (inl h)) in
    let kr = IsTree-kept m m' x (m x).right_child_offset r right (λ y h. same y (inr (inr h))) in
    rw (same x (inr (inl refl))) (e, nonzero, parent, hl, hr, kl, kr)

-- The root is not among the nodes below it.
unfoldable pub HasOwnRoot : Tree → Type 0
HasOwnRoot tip = Unit
HasOwnRoot (fork l x r) = ((y : ℕ) → IsIn y l → y ≢ x) × ((y : ℕ) → IsIn y r → y ≢ x)

pub IsDistinct-HasOwnRoot : (t : Tree) → IsDistinct t → HasOwnRoot t
unfolding IsDistinct HasOwnRoot
IsDistinct-HasOwnRoot tip distinct = tt
IsDistinct-HasOwnRoot (fork l x r) (xl, xr, _, _, _) = (xl, xr)

-- Of the nodes of a tree only the parent of the root is another one.
pub IsTree-moved :
    (m m' : ℕ → Tnode) (p p' o : ℕ) (t : Tree)
    → IsTree m p o t
    → HasOwnRoot t
    → ((y : ℕ) → IsIn y t → y ≢ o → m' y ≡ m y)
    → (o ≢ 0 → m' o ≡ record (m o) { parent_offset = p' })
    → IsTree m' p' o t
unfolding IsTree HasOwnRoot IsIn
IsTree-moved m m' p p' o tip tree own same root = tree
IsTree-moved m m' p p' o (fork l x r) (e, nonzero, parent, hl, hr, left, right) (xl, xr) same root =
    let kl =
      IsTree-kept m m' x (m x).left_child_offset l left
        (λ y h. same y (inl h) (λ q. xl y h (q ∙ e))) in
    let kr =
      IsTree-kept m m' x (m x).right_child_offset r right
        (λ y h. same y (inr (inr h)) (λ q. xr y h (q ∙ e))) in
    let at_x : m' x ≡ record (m x) { parent_offset = p' } =
      rw (← e) (root (λ zero. nonzero (sym e ∙ zero))) in
    rw at_x (e, nonzero, refl, hl, hr, kl, kr)
