-- ===== src/Engine/Ttree/Rotate/Rebalance.antt =====
-- The rebalancing of a subtree of the T-tree of workloads/no_sql_db/wasm-src/dbindex.c.

use wasm_cloud_computing_ben.Prelude.{
  ℕ, ◌+◌, ◌≤◌, ◌<◌, ◌≡◌, ◌≢◌, ◌⊎◌, inl, inr, ap, sym, ◌∙◌, arith,
}
use wasm_cloud_computing_ben.Engine.Ttree.{Index}
use wasm_cloud_computing_ben.Engine.Ttree.Shape.{
  Tree, tip, fork, height, IsBalanced, IsIn, IsDistinct, HasOwnRoot, IsTree,
}
use wasm_cloud_computing_ben.Engine.Ttree.Rotate.{
  Overweight, ll_case, lr_case, rl_case, rr_case, rotate, db_rotate_ttree,
  db_which_branch_causes_overweight,
}
use wasm_cloud_computing_ben.Engine.Ttree.Rotate.Made.{AreKept}
use wasm_cloud_computing_ben.Engine.Ttree.Rotate.Trees.{rotate_ll-IsTree, rotate_rr-IsTree}
use wasm_cloud_computing_ben.Engine.Ttree.Rotate.Crossed.{rotate_lr-IsTree, rotate_rl-IsTree}
use wasm_cloud_computing_ben.Engine.Ttree.Rotate.Replaced.{
  Replaces, ll-Replaces, rr-Replaces, lr-Replaces, rl-Replaces,
}
use wasm_cloud_computing_ben.Engine.Ttree.Rotate.Above.{IsLinkedAbove, fixed-IsTree}

-- The rotated tree `t'` in place of `t`; `w` is the case.
pub record IsRotated (field : ℕ → ℕ) (i : Index) (p a x : ℕ) (t t' : Tree) : Type 0 where
  pub tree : IsTree (db_rotate_ttree field i a (db_which_branch_causes_overweight i a)).nodes p x t'
  pub others :
      (y : ℕ)
      → (IsIn y t → ⊥)
      → y ≢ 0
      → y ≢ p
      → (db_rotate_ttree field i a (db_which_branch_causes_overweight i a)).nodes y ≡ i.nodes y
  pub linked :
      IsLinkedAbove i
        (db_rotate_ttree field i a (db_which_branch_causes_overweight i a))
        p
        a
        x
        (height t')

finish :
    (field : ℕ → ℕ) (i : Index) (p a q x : ℕ) (l r t : Tree) (w : Overweight)
    → db_which_branch_causes_overweight i a ≡ w
    → (i.nodes a).parent_offset ≡ p
    → (rotate field i a w).0 ≡ x
    → IsTree (rotate field i a w).1.nodes q x (fork l x r)
    → AreKept i.nodes (rotate field i a w).1.nodes t
    → HasOwnRoot (fork l x r)
    → ((y : ℕ) → IsIn y (fork l x r) → IsIn y t)
    → (IsIn p t → ⊥)
    → height (fork l x r) < 256
    → IsRotated field i p a x t (fork l x r)
unfolding db_rotate_ttree IsIn
finish field i p a q x l r t w which parent root tree kept own inside out small =
    let i' = (rotate field i a w).1 in
    let (new, others, linked) =
      fixed-IsTree field i' p a q x l r tree own (λ h. out (inside p h)) small in
    record {
      tree = rw (which, parent, root) new;
      others = λ y no y0 yp.
          rw (which, parent, root)
            (others y (λ e. no (inside y (inr (inl e)))) (λ p0. yp) ∙ kept y no y0);
      linked =
          rw (which, parent, root)
            (
              linked.0,
              (λ ne e. linked.1 ne (ap (λ n. n.left_child_offset) (kept p out ne) ∙ e)),
              (λ ne no.
                  linked.2 ne (λ e. no (sym (ap (λ n. n.left_child_offset) (kept p out ne)) ∙ e))),
            );
    }

-- The case for each shape that a subtree can have whose children differ by two in height.
which_ll :
    (i : Index) (p a b : ℕ) (D E C : Tree)
    → IsTree i.nodes p a (fork (fork D b E) a C)
    → height C < height (fork D b E)
    → height E ≤ height D
    → db_which_branch_causes_overweight i a ≡ ll_case
unfolding IsTree db_which_branch_causes_overweight
which_ll i p a b D E C (_, a0, pa, hl, hr, (ab, b0, pb, hd, he, tD, tE), tC) high less =
    rw (hl, hr, ab, hd, he) (ground arith)

which_lr :
    (i : Index) (p a b : ℕ) (D E C : Tree)
    → IsTree i.nodes p a (fork (fork D b E) a C)
    → height C < height (fork D b E)
    → height D < height E
    → db_which_branch_causes_overweight i a ≡ lr_case
unfolding IsTree db_which_branch_causes_overweight
which_lr i p a b D E C (_, a0, pa, hl, hr, (ab, b0, pb, hd, he, tD, tE), tC) high less =
    rw (hl, hr, ab, hd, he) (ground arith)

which_rr :
    (i : Index) (p a b : ℕ) (C E D : Tree)
    → IsTree i.nodes p a (fork C a (fork E b D))
    → height C < height (fork E b D)
    → height E ≤ height D
    → db_which_branch_causes_overweight i a ≡ rr_case
unfolding IsTree db_which_branch_causes_overweight
which_rr i p a b C E D (_, a0, pa, hl, hr, tC, (ab, b0, pb, he, hd, tE, tD)) high less =
    rw (hl, hr, ab, hd, he) (ground arith)

which_rl :
    (i : Index) (p a b : ℕ) (C E D : Tree)
    → IsTree i.nodes p a (fork C a (fork E b D))
    → height C < height (fork E b D)
    → height D < height E
    → db_which_branch_causes_overweight i a ≡ rl_case
unfolding IsTree db_which_branch_causes_overweight
which_rl i p a b C E D (_, a0, pa, hl, hr, tC, (ab, b0, pb, he, hd, tE, tD)) high less =
    rw (hl, hr, ab, hd, he) (ground arith)

parent_of :
    (i : Index) (p a : ℕ) (l r : Tree)
    → IsTree i.nodes p a (fork l a r)
    → (i.nodes a).parent_offset ≡ p
unfolding IsTree
parent_of i p a l r (_, _, parent, _, _, _, _) = parent

no_height : (n : ℕ) → height tip ≡ n + 2 → ⊥
unfolding height
no_height n h = omega arith

no_less : (n : ℕ) → n < height tip → ⊥
unfolding height
no_less n h = omega arith

le_or_lt : (x y : ℕ) → (x ≤ y) ⊎ (y < x)
le_or_lt x y = ground arith

-- The result of a rotation that replaces the tree.
abbrev pub IsRebalanced : (ℕ → ℕ) → Index → ℕ → ℕ → Tree → Type 0
IsRebalanced field i p a t = (x : ℕ) × (t' : Tree) × IsRotated field i p a x t t' × Replaces t t'

module _ (field : ℕ → ℕ) (i : Index) (p a : ℕ) where
  rebalance_ll :
      (b : ℕ) (D E C : Tree)
      → let t = fork (fork D b E) a C in
        IsTree i.nodes p a t
        → IsDistinct t
        → (IsIn p t → ⊥)
        → height t < 256
        → height (fork D b E) ≡ height C + 2
        → height E ≤ height D
        → IsBalanced (fork D b E)
        → IsBalanced C
        → IsRebalanced field i p a t
  unfolding rotate
  rebalance_ll b D E C tree distinct out small high less left right =
      let new = ll-Replaces a b D E C distinct high less left right in
      let bound : height (fork (D) b (fork E a C)) < 256 = omega (arith, new.lower) in
      let (root, made, kept) = rotate_ll-IsTree i p a b D E C tree distinct bound in
      (
        b,
        fork (D) b (fork E a C),
        finish field i p a a b (D) (fork E a C) (fork (fork D b E) a C) ll_case
            (which_ll i p a b D E C tree (omega arith) less) (parent_of i p a (fork D b E) (C) tree)
            root made kept new.own new.inside out bound,
        new,
      )

  rebalance_rr :
      (b : ℕ) (C E D : Tree)
      → let t = fork C a (fork E b D) in
        IsTree i.nodes p a t
        → IsDistinct t
        → (IsIn p t → ⊥)
        → height t < 256
        → height (fork E b D) ≡ height C + 2
        → height E ≤ height D
        → IsBalanced C
        → IsBalanced (fork E b D)
        → IsRebalanced field i p a t
  unfolding rotate
  rebalance_rr b C E D tree distinct out small high less left right =
      let new = rr-Replaces a b C E D distinct high less left right in
      let bound : height (fork (fork C a E) b (D)) < 256 = omega (arith, new.lower) in
      let (root, made, kept) = rotate_rr-IsTree i p a b C E D tree distinct bound in
      (
        b,
        fork (fork C a E) b (D),
        finish field i p a a b (fork C a E) (D) (fork C a (fork E b D)) rr_case
            (which_rr i p a b C E D tree (omega arith) less) (parent_of i p a (C) (fork E b D) tree)
            root made kept new.own new.inside out bound,
        new,
      )

  rebalance_lr :
      (b e : ℕ) (D F G C : Tree)
      → let t = fork (fork D b (fork F e G)) a C in
        IsTree i.nodes p a t
        → IsDistinct t
        → (IsIn p t → ⊥)
        → height t < 256
        → height (fork D b (fork F e G)) ≡ height C + 2
        → height D < height (fork F e G)
        → IsBalanced (fork D b (fork F e G))
        → IsBalanced C
        → IsRebalanced field i p a t
  unfolding rotate
  rebalance_lr b e D F G C tree distinct out small high less left right =
      let new = lr-Replaces a b e D F G C distinct high less left right in
      let bound : height (fork (fork D b F) e (fork G a C)) < 256 = omega (arith, new.lower) in
      let (root, made, kept) = rotate_lr-IsTree field i p a b e D F G C tree distinct bound in
      (
        e,
        fork (fork D b F) e (fork G a C),
        finish field i p a b e (fork D b F) (fork G a C) (fork (fork D b (fork F e G)) a C) lr_case
            (which_lr i p a b D (fork F e G) C tree (omega arith) less)
            (parent_of i p a (fork D b (fork F e G)) (C) tree) root made kept new.own new.inside out
            bound,
        new,
      )

  rebalance_rl :
      (b e : ℕ) (C F G D : Tree)
      → let t = fork C a (fork (fork F e G) b D) in
        IsTree i.nodes p a t
        → IsDistinct t
        → (IsIn p t → ⊥)
        → height t < 256
        → height (fork (fork F e G) b D) ≡ height C + 2
        → height D < height (fork F e G)
        → IsBalanced C
        → IsBalanced (fork (fork F e G) b D)
        → IsRebalanced field i p a t
  unfolding rotate
  rebalance_rl b e C F G D tree distinct out small high less left right =
      let new = rl-Replaces a b e C F G D distinct high less left right in
      let bound : height (fork (fork C a F) e (fork G b D)) < 256 = omega (arith, new.lower) in
      let (root, made, kept) = rotate_rl-IsTree field i p a b e C F G D tree distinct bound in
      (
        e,
        fork (fork C a F) e (fork G b D),
        finish field i p a b e (fork C a F) (fork G b D) (fork C a (fork (fork F e G) b D)) rl_case
            (which_rl i p a b C (fork F e G) D tree (omega arith) less)
            (parent_of i p a (C) (fork (fork F e G) b D) tree) root made kept new.own new.inside out
            bound,
        new,
      )

  -- A subtree whose children are balanced and differ by two in height, with its nodes apart from each other
  -- and from the node above it: `db_rotate_ttree`, in the case that
  -- `db_which_branch_causes_overweight` answers, makes a balanced tree of it with the same nodes in the same
  -- order and a height that is the same or lower by one. All links, parents and stored heights of the new
  -- tree are right, the node above it or the index header leads to its root, a node above it stores its
  -- height, and all other nodes are as before. Heights are below 256, as a stored height has eight bits.
  pub db_rotate_ttree-Replaces :
      (l r : Tree)
      → let t = fork l a r in
        IsTree i.nodes p a t
        → IsDistinct t
        → (IsIn p t → ⊥)
        → height t < 256
        → (height l ≡ height r + 2) ⊎ (height r ≡ height l + 2)
        → IsBalanced l
        → IsBalanced r
        → IsRebalanced field i p a t
  db_rotate_ttree-Replaces tip r tree distinct out small (inl high) left right =
      absurd (no_height (height r) high)
  db_rotate_ttree-Replaces (fork D b E) C tree distinct out small (inl high) left right =
      elim (le_or_lt (height E) (height D)) [
        | inl less ↦ rebalance_ll b D E C tree distinct out small high less left right
        | inr more ↦ crossed E more tree distinct out small high left
      ]
    where
      crossed :
          (E : Tree)
          → height D < height E
          → IsTree i.nodes p a (fork (fork D b E) a C)
          → IsDistinct (fork (fork D b E) a C)
          → (IsIn p (fork (fork D b E) a C) → ⊥)
          → height (fork (fork D b E) a C) < 256
          → height (fork D b E) ≡ height C + 2
          → IsBalanced (fork D b E)
          → IsRebalanced field i p a (fork (fork D b E) a C)
      crossed tip more tree distinct out small high left = absurd (no_less (height D) more)
      crossed (fork F e G) more tree distinct out small high left =
          rebalance_lr b e D F G C tree distinct out small high more left right
  db_rotate_ttree-Replaces l tip tree distinct out small (inr high) left right =
      absurd (no_height (height l) high)
  db_rotate_ttree-Replaces C (fork E b D) tree distinct out small (inr high) left right =
      elim (le_or_lt (height E) (height D)) [
        | inl less ↦ rebalance_rr b C E D tree distinct out small high less left right
        | inr more ↦ crossed E more tree distinct out small high right
      ]
    where
      crossed :
          (E : Tree)
          → height D < height E
          → IsTree i.nodes p a (fork C a (fork E b D))
          → IsDistinct (fork C a (fork E b D))
          → (IsIn p (fork C a (fork E b D)) → ⊥)
          → height (fork C a (fork E b D)) < 256
          → height (fork E b D) ≡ height C + 2
          → IsBalanced (fork E b D)
          → IsRebalanced field i p a (fork C a (fork E b D))
      crossed tip more tree distinct out small high right = absurd (no_less (height D) more)
      crossed (fork F e G) more tree distinct out small high right =
          rebalance_rl b e C F G D tree distinct out small high more left right
