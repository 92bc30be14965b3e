-- ===== src/Engine/Ttree/Rotate/Crossed.antt =====
-- The trees that the double rotations of workloads/no_sql_db/wasm-src/dbindex.c make.
use wasm_cloud_computing_ben.Prelude.{ℕ, ◌<◌, ◌≡◌, inl, inr, refl, sym}
use wasm_cloud_computing_ben.Engine.Ttree.{Index}
use wasm_cloud_computing_ben.Engine.Ttree.Shape.{
  Tree, fork, height, IsIn, IsDistinct, IsTree, root-IsIn, IsTree-nonzero, root_apart, IsTree-kept,
  IsDistinct-HasOwnRoot, IsTree-moved,
}
use wasm_cloud_computing_ben.Engine.Ttree.Rotate.{rotate_lr, rotate_rl}
use wasm_cloud_computing_ben.Engine.Ttree.Rotate.Double.{rotate_lr-nodes, rotate_rl-nodes}
use wasm_cloud_computing_ben.Engine.Ttree.Rotate.Made.{
  make, above-height, lower_left, lower_right, AreKept,
}

pub rotate_lr-IsTree :
    (field : ℕ → ℕ) (i : Index) (p a b e : ℕ) (D F G C : Tree)
    → let t = fork (fork D b (fork F e G)) a C in
      let t' = fork (fork D b F) e (fork G a C) in
      IsTree i.nodes p a t
      → IsDistinct t
      → height t' < 256
      → let (r, i') = rotate_lr field i a in
        (r ≡ e) × IsTree i'.nodes b e t' × AreKept i.nodes i'.nodes t
unfolding IsTree IsDistinct IsIn
rotate_lr-IsTree field i p a b e D F G C
      (_, a0, pa, hl, hr, (ab, b0, pb, hd, he, tD, (be, e0, pe, hf, hg, tF, tG)), tC)
      (xl, xr, lr, (dD, dE, apart, DD, (eF, eG, FG, DF, DG)), DC) small =
    let m = i.nodes in
    let f = (m e).left_child_offset in
    let g = (m e).right_child_offset in
    let off_f = λ (y : ℕ). root_apart m e f y F tF in
    let off_g = λ (y : ℕ). root_apart m e g y G tG in
    let (is_e, others, moved_f, moved_g, A, B, E) =
      rotate_lr-nodes field i a b e f g (sym ab) (sym be) refl refl
        (λ q. xl b (inr (inl refl)) (sym q)) (xl e (inr (inr (inr (inl refl)))))
        (dE e (inr (inl refl)))
        (
          (λ q. off_f a (λ h. xl a (inr (inr (inl h))) refl) a0 (sym q)),
          (λ q. off_f b (λ h. dE b (inl h) refl) b0 (sym q)),
          (λ q. off_f e (λ h. eF e h refl) e0 (sym q)),
        )
        (
          (λ q. off_g a (λ h. xl a (inr (inr (inr (inr h)))) refl) a0 (sym q)),
          (λ q. off_g b (λ h. dE b (inr (inr h)) refl) b0 (sym q)),
          (λ q. off_g e (λ h. eG e h refl) e0 (sym q)),
        )
        (λ ne. off_g f (λ h. FG f f (root-IsIn m e f F tF ne) h refl) ne) in
    let m' = (rotate_lr field i a).1.nodes in
    let D' = IsTree-kept m m' b (m b).left_child_offset D tD (λ y h.
      let nz = IsTree-nonzero m b (m b).left_child_offset y D tD h in
      others y (xl y (inl h)) (dD y h) (apart y e h (inr (inl refl)))
        (off_f y (λ k. apart y y h (inl k) refl) nz)
        (off_g y (λ k. apart y y h (inr (inr k)) refl) nz)) in
    let F' =
      IsTree-moved m m' e b f F tF (IsDistinct-HasOwnRoot F DF)
        (λ y h ne.
          others y (xl y (inr (inr (inl h)))) (dE y (inl h)) (eF y h) ne
            (off_g y (λ k. FG y y h k refl) (IsTree-nonzero m e f y F tF h)))
        moved_f in
    let G' =
      IsTree-moved m m' e a g G tG (IsDistinct-HasOwnRoot G DG)
        (λ y h ne.
          others y (xl y (inr (inr (inr (inr h))))) (dE y (inr (inr h))) (eG y h)
            (off_f y (λ k. FG y y k h refl) (IsTree-nonzero m e g y G tG h)) ne)
        moved_g in
    let C' = IsTree-kept m m' a (m a).right_child_offset C tC (λ y h.
      let nz = IsTree-nonzero m a (m a).right_child_offset y C tC h in
      others y (xr y h) (λ q. lr b y (inr (inl refl)) h (sym q))
        (λ q. lr e y (inr (inr (inr (inl refl)))) h (sym q))
        (off_f y (λ k. lr y y (inr (inr (inl k))) h refl) nz)
        (off_g y (λ k. lr y y (inr (inr (inr (inr k)))) h refl) nz)) in
    let low = lower_left (fork D b F) (fork G a C) e small in
    let low' = lower_right (fork D b F) (fork G a C) e small in
    let left = make m' e e b (m b).left_child_offset f _ _ D F b0 B refl hd hf D' F' in
    let right = make m' e e a g (m a).right_child_offset _ _ G C a0 A refl hg hr G' C' in
    (
      is_e,
      make m' b (m e).parent_offset e b a _ _ (fork D b F) (fork G a C) e0 E pe
          (above-height (m b).left_subtree_height (m e).left_subtree_height D F b hd hf low)
          (above-height (m e).right_subtree_height (m a).right_subtree_height G C a hg hr low') left
          right,
      (λ y out nonzero.
          others y (λ q. out (inr (inl q))) (λ q. out (inl (inr (inl q))))
            (λ q. out (inl (inr (inr (inr (inl q))))))
            (off_f y (λ k. out (inl (inr (inr (inl k))))) nonzero)
            (off_g y (λ k. out (inl (inr (inr (inr (inr k)))))) nonzero)),
    )

pub rotate_rl-IsTree :
    (field : ℕ → ℕ) (i : Index) (p a b e : ℕ) (C F G D : Tree)
    → let t = fork C a (fork (fork F e G) b D) in
      let t' = fork (fork C a F) e (fork G b D) in
      IsTree i.nodes p a t
      → IsDistinct t
      → height t' < 256
      → let (r, i') = rotate_rl field i a in
        (r ≡ e) × IsTree i'.nodes b e t' × AreKept i.nodes i'.nodes t
unfolding IsTree IsDistinct IsIn
rotate_rl-IsTree field i p a b e C F G D
      (_, a0, pa, hl, hr, tC, (ab, b0, pb, he, hd, (be, e0, pe, hf, hg, tF, tG), tD))
      (xl, xr, lr, DC, (dE, dD, apart, (eF, eG, FG, DF, DG), DD)) small =
    let m = i.nodes in
    let f = (m e).left_child_offset in
    let g = (m e).right_child_offset in
    let off_f = λ (y : ℕ). root_apart m e f y F tF in
    let off_g = λ (y : ℕ). root_apart m e g y G tG in
    let (is_e, others, moved_f, moved_g, A, B, E) =
      rotate_rl-nodes field i a b e f g (sym ab) (sym be) refl refl
        (λ q. xr b (inr (inl refl)) (sym q)) (xr e (inl (inr (inl refl)))) (dE e (inr (inl refl)))
        (
          (λ q. off_f a (λ h. xr a (inl (inl h)) refl) a0 (sym q)),
          (λ q. off_f b (λ h. dE b (inl h) refl) b0 (sym q)),
          (λ q. off_f e (λ h. eF e h refl) e0 (sym q)),
        )
        (
          (λ q. off_g a (λ h. xr a (inl (inr (inr h))) refl) a0 (sym q)),
          (λ q. off_g b (λ h. dE b (inr (inr h)) refl) b0 (sym q)),
          (λ q. off_g e (λ h. eG e h refl) e0 (sym q)),
        )
        (λ ne. off_g f (λ h. FG f f (root-IsIn m e f F tF ne) h refl) ne) in
    let m' = (rotate_rl field i a).1.nodes in
    let D' = IsTree-kept m m' b (m b).right_child_offset D tD (λ y h.
      let nz = IsTree-nonzero m b (m b).right_child_offset y D tD h in
      others y (xr y (inr (inr h))) (dD y h) (λ q. apart e y (inr (inl refl)) h (sym q))
        (off_f y (λ k. apart y y (inl k) h refl) nz)
        (off_g y (λ k. apart y y (inr (inr k)) h refl) nz)) in
    let F' =
      IsTree-moved m m' e a f F tF (IsDistinct-HasOwnRoot F DF)
        (λ y h ne.
          others y (xr y (inl (inl h))) (dE y (inl h)) (eF y h) ne
            (off_g y (λ k. FG y y h k refl) (IsTree-nonzero m e f y F tF h)))
        moved_f in
    let G' =
      IsTree-moved m m' e b g G tG (IsDistinct-HasOwnRoot G DG)
        (λ y h ne.
          others y (xr y (inl (inr (inr h)))) (dE y (inr (inr h))) (eG y h)
            (off_f y (λ k. FG y y k h refl) (IsTree-nonzero m e g y G tG h)) ne)
        moved_g in
    let C' = IsTree-kept m m' a (m a).left_child_offset C tC (λ y h.
      let nz = IsTree-nonzero m a (m a).left_child_offset y C tC h in
      others y (xl y h) (lr y b h (inr (inl refl))) (lr y e h (inl (inr (inl refl))))
        (off_f y (λ k. lr y y h (inl (inl k)) refl) nz)
        (off_g y (λ k. lr y y h (inl (inr (inr k))) refl) nz)) in
    let low = lower_left (fork C a F) (fork G b D) e small in
    let low' = lower_right (fork C a F) (fork G b D) e small in
    let left = make m' e e a (m a).left_child_offset f _ _ C F a0 A refl hl hf C' F' in
    let right = make m' e e b g (m b).right_child_offset _ _ G D b0 B refl hg hd G' D' in
    (
      is_e,
      make m' b (m e).parent_offset e a b _ _ (fork C a F) (fork G b D) e0 E pe
          (above-height (m a).left_subtree_height (m e).left_subtree_height C F a hl hf low)
          (above-height (m e).right_subtree_height (m b).right_subtree_height G D b hg hd low') left
          right,
      (λ y out nonzero.
          others y (λ q. out (inr (inl q))) (λ q. out (inr (inr (inr (inl q)))))
            (λ q. out (inr (inr (inl (inr (inl q))))))
            (off_f y (λ k. out (inr (inr (inl (inl k))))) nonzero)
            (off_g y (λ k. out (inr (inr (inl (inr (inr k)))))) nonzero)),
    )
