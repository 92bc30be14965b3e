-- ===== src/Engine/Ttree/Rotate/Trees.antt =====
-- The trees that the single rotations of workloads/no_sql_db/wasm-src/dbindex.c make.
use wasm_cloud_computing_ben.Prelude.{ℕ, ◌<◌, ◌≡◌, ◌≢◌, inl, inr, refl, sym}
use wasm_cloud_computing_ben.Engine.Ttree.{Index}
use wasm_cloud_computing_ben.Engine.Ttree.Shape.{
  Tree, fork, height, IsIn, IsDistinct, IsTree, IsTree-nonzero, root_apart, IsTree-kept,
  IsDistinct-HasOwnRoot, IsTree-moved,
}
use wasm_cloud_computing_ben.Engine.Ttree.Rotate.{rotate_ll, rotate_rr}
use wasm_cloud_computing_ben.Engine.Ttree.Rotate.Nodes.{rotate_ll-nodes, rotate_rr-nodes}
use wasm_cloud_computing_ben.Engine.Ttree.Rotate.Made.{
  make, above-height, lower_left, lower_right, AreKept,
}

pub rotate_ll-IsTree :
    (i : Index) (p a b : ℕ) (D E C : Tree)
    → let t = fork (fork D b E) a C in
      let t' = fork D b (fork E a C) in
      IsTree i.nodes p a t
      → IsDistinct t
      → height t' < 256
      → let (r, i') = rotate_ll i a in (r ≡ b) × IsTree i'.nodes a b t' × AreKept i.nodes i'.nodes t
unfolding IsTree IsDistinct IsIn
rotate_ll-IsTree i p a b D E C (_, a0, pa, hl, hr, (ab, b0, pb, hd, he, tD, tE), tC)
      (xl, xr, lr, (dD, dE, apart, DD, DE), DC) small =
    let m = i.nodes in
    let e = (m b).right_child_offset in
    let off = λ (y : ℕ). root_apart m b e y E tE in
    let a_b : a ≢ b = λ q. xl b (inr (inl refl)) (sym q) in
    let e_a : e ≢ a = λ q. off a (λ h. xl a (inr (inr h)) refl) a0 (sym q) in
    let e_b : e ≢ b = λ q. off b (λ h. dE b h refl) b0 (sym q) in
    let (is_b, others, moved, A, B) = rotate_ll-nodes i a b e (sym ab) refl a_b e_a e_b in
    let m' = (rotate_ll i a).1.nodes in
    let D' = IsTree-kept m m' b (m b).left_child_offset D tD (λ y h.
      others y (xl y (inl h)) (dD y h)
        (off y (λ k. apart y y h k refl) (IsTree-nonzero m b (m b).left_child_offset y D tD h))) in
    let E' =
      IsTree-moved m m' b a e E tE (IsDistinct-HasOwnRoot E DE)
        (λ y h ne. others y (xl y (inr (inr h))) (dE y h) ne) moved in
    let C' = IsTree-kept m m' a (m a).right_child_offset C tC (λ y h.
      others y (xr y h) (λ q. lr b y (inr (inl refl)) h (sym q))
        (off y (λ k. lr y y (inr (inr k)) h refl)
          (IsTree-nonzero m a (m a).right_child_offset y C tC h))) in
    let low = lower_right D (fork E a C) b small in
    let right = make m' b b a e (m a).right_child_offset _ _ E C a0 A refl he hr E' C' in
    (
      is_b,
      make m' a (m b).parent_offset b (m b).left_child_offset a _ _ D (fork E a C) b0 B pb hd
          (above-height (m b).right_subtree_height (m a).right_subtree_height E C a he hr low) D'
          right,
      (λ y out nonzero.
          others y (λ q. out (inr (inl q))) (λ q. out (inl (inr (inl q))))
            (off y (λ k. out (inl (inr (inr k)))) nonzero)),
    )

pub rotate_rr-IsTree :
    (i : Index) (p a b : ℕ) (C E D : Tree)
    → let t = fork C a (fork E b D) in
      let t' = fork (fork C a E) b D in
      IsTree i.nodes p a t
      → IsDistinct t
      → height t' < 256
      → let (r, i') = rotate_rr i a in (r ≡ b) × IsTree i'.nodes a b t' × AreKept i.nodes i'.nodes t
unfolding IsTree IsDistinct IsIn
rotate_rr-IsTree i p a b C E D (_, a0, pa, hl, hr, tC, (ab, b0, pb, he, hd, tE, tD))
      (xl, xr, lr, DC, (dE, dD, apart, DE, DD)) small =
    let m = i.nodes in
    let e = (m b).left_child_offset in
    let off = λ (y : ℕ). root_apart m b e y E tE in
    let a_b : a ≢ b = λ q. xr b (inr (inl refl)) (sym q) in
    let e_a : e ≢ a = λ q. off a (λ h. xr a (inl h) refl) a0 (sym q) in
    let e_b : e ≢ b = λ q. off b (λ h. dE b h refl) b0 (sym q) in
    let (is_b, others, moved, A, B) = rotate_rr-nodes i a b e (sym ab) refl a_b e_a e_b in
    let m' = (rotate_rr i a).1.nodes in
    let D' = IsTree-kept m m' b (m b).right_child_offset D tD (λ y h.
      others y (xr y (inr (inr h))) (dD y h)
        (off y (λ k. apart y y k h refl) (IsTree-nonzero m b (m b).right_child_offset y D tD h))) in
    let E' =
      IsTree-moved m m' b a e E tE (IsDistinct-HasOwnRoot E DE)
        (λ y h ne. others y (xr y (inl h)) (dE y h) ne) moved in
    let C' = IsTree-kept m m' a (m a).left_child_offset C tC (λ y h.
      others y (xl y h) (λ q. lr y b h (inr (inl refl)) q)
        (off y (λ k. lr y y h (inl k) refl)
          (IsTree-nonzero m a (m a).left_child_offset y C tC h))) in
    let low = lower_left (fork C a E) D b small in
    let left = make m' b b a (m a).left_child_offset e _ _ C E a0 A refl hl he C' E' in
    (
      is_b,
      make m' a (m b).parent_offset b a (m b).right_child_offset _ _ (fork C a E) D b0 B pb
          (above-height (m a).left_subtree_height (m b).left_subtree_height C E a hl he low) hd left
          D',
      (λ y out nonzero.
          others y (λ q. out (inr (inl q))) (λ q. out (inr (inr (inr (inl q)))))
            (off y (λ k. out (inr (inr (inl k)))) nonzero)),
    )
