-- ===== src/Engine/Ttree/Rotate/Double.antt =====
-- The nodes after the double rotations of workloads/no_sql_db/wasm-src/dbindex.c.
use wasm_cloud_computing_ben.Prelude.{
  ℕ, ◌≡◌, ◌≢◌, refl, sym, ◌∙◌, Bool, true, false, ◌==◌, if◌then◌else◌, arith, Bool-cases, inl, inr,
}
use wasm_cloud_computing_ben.Engine.Ttree.{Tnode, Index, modify}
use wasm_cloud_computing_ben.Engine.Ttree.Rotate.{
  height_above, set_parent, set_parent_if, is_special, fill_left, fill_right, detach_lr, detach_rl,
  attach_lr, attach_rl, rotate_lr, rotate_rl,
}
use wasm_cloud_computing_ben.Engine.Ttree.Rotate.Nodes.{IsPlaced, IsMoved, above}

abbrev HasLinksOf : Tnode → Tnode → Type 0
HasLinksOf n' n =
    IsPlaced n' n.parent_offset n.left_child_offset n.left_subtree_height n.right_child_offset
      n.right_subtree_height

detach_lr-nodes :
    (i : Index) (a b e f g : ℕ)
    → f ≡ (i.nodes e).left_child_offset
    → g ≡ (i.nodes e).right_child_offset
    → a ≢ b
    → e ≢ a
    → e ≢ b
    → (f ≢ a) × (f ≢ b) × (f ≢ e)
    → (g ≢ a) × (g ≢ b) × (g ≢ e)
    → (f ≢ 0 → f ≢ g)
    → let m = (detach_lr i a b e).nodes in
      let A = i.nodes a in
      let B = i.nodes b in
      let E = i.nodes e in
      ((y : ℕ) → y ≢ a → y ≢ b → y ≢ f → y ≢ g → m y ≡ i.nodes y)
      × IsMoved i.nodes m f b
      × IsMoved i.nodes m g a
      × IsPlaced
          (m a)
          A.parent_offset
          g
          E.right_subtree_height
          A.right_child_offset
          A.right_subtree_height
      × IsPlaced
          (m b)
          B.parent_offset
          B.left_child_offset
          B.left_subtree_height
          f
          E.left_subtree_height
unfolding detach_lr set_parent_if set_parent modify
detach_lr-nodes i a b e f g hf hg ab ea eb fs gs fg = elim (Bool-cases (f == 0)) [
  | inl nf ↦ elim (Bool-cases (g == 0)) [
    | inl ng ↦ (
      (λ y ya yb yf yg. ground arith),
      (λ ne. ground arith),
      (λ ne. ground arith),
      ground arith,
      ground arith,
    )
    | inr sg ↦ (
      (λ y ya yb yf yg. ground arith),
      (λ ne. ground arith),
      (λ ne. ground arith),
      ground arith,
      ground arith,
    )
  ]
  | inr sf ↦ elim (Bool-cases (g == 0)) [
    | inl ng ↦ (
      (λ y ya yb yf yg. ground arith),
      (λ ne. ground arith),
      (λ ne. ground arith),
      ground arith,
      ground arith,
    )
    | inr sg ↦ (
      (λ y ya yb yf yg. ground arith),
      (λ ne. ground arith),
      (λ ne. ground arith),
      ground arith,
      ground arith,
    )
  ]
]

attach_lr-nodes :
    (i : Index) (a b e : ℕ)
    → a ≢ b
    → e ≢ a
    → e ≢ b
    → let m = (attach_lr i a b e).nodes in
      let A = i.nodes a in
      let B = i.nodes b in
      ((y : ℕ) → y ≢ a → y ≢ b → y ≢ e → m y ≡ i.nodes y)
      × IsPlaced
          (m a)
          e
          A.left_child_offset
          A.left_subtree_height
          A.right_child_offset
          A.right_subtree_height
      × IsPlaced
          (m b)
          e
          B.left_child_offset
          B.left_subtree_height
          B.right_child_offset
          B.right_subtree_height
      × IsPlaced
          (m e)
          (i.nodes e).parent_offset
          b
          (above B.left_subtree_height B.right_subtree_height)
          a
          (above A.left_subtree_height A.right_subtree_height)
unfolding attach_lr set_parent modify height_above
attach_lr-nodes i a b e ab ea eb =
    ((λ y ya yb ye. ground arith), ground arith, ground arith, ground arith)

-- The values move, and all links stay.
fill_left-nodes :
    (field : ℕ → ℕ) (i : Index) (b e : ℕ) (special : Bool)
    → e ≢ b
    → let m = (if special then fill_left field i e b else i).nodes in
      ((y : ℕ) → y ≢ b → y ≢ e → m y ≡ i.nodes y)
      × HasLinksOf (m b) (i.nodes b)
      × HasLinksOf (m e) (i.nodes e)
unfolding fill_left modify
fill_left-nodes field i b e true eb = ((λ y yb ye. ground arith), ground arith, ground arith)
fill_left-nodes field i b e false eb = ((λ y yb ye. refl), ground arith, ground arith)

lr_core :
    (field : ℕ → ℕ) (i : Index) (a b e f g : ℕ) (special : Bool)
    → f ≡ (i.nodes e).left_child_offset
    → g ≡ (i.nodes e).right_child_offset
    → a ≢ b
    → e ≢ a
    → e ≢ b
    → (f ≢ a) × (f ≢ b) × (f ≢ e)
    → (g ≢ a) × (g ≢ b) × (g ≢ e)
    → (f ≢ 0 → f ≢ g)
    → let i4 = detach_lr i a b e in
      let i' = attach_lr (if special then fill_left field i4 e b else i4) a b e in
      let A = i.nodes a in
      let B = i.nodes b in
      let E = i.nodes e in
      ((y : ℕ) → y ≢ a → y ≢ b → y ≢ e → y ≢ f → y ≢ g → i'.nodes y ≡ i.nodes y)
      × IsMoved i.nodes i'.nodes f b
      × IsMoved i.nodes i'.nodes g a
      × IsPlaced (i'.nodes a) e g E.right_subtree_height A.right_child_offset A.right_subtree_height
      × IsPlaced (i'.nodes b) e B.left_child_offset B.left_subtree_height f E.left_subtree_height
      × IsPlaced
          (i'.nodes e)
          E.parent_offset
          b
          (above B.left_subtree_height E.left_subtree_height)
          a
          (above E.right_subtree_height A.right_subtree_height)
lr_core field i a b e f g special hf hg ab ea eb fs gs fg =
    let i4 = detach_lr i a b e in
    let i5 = if special then fill_left field i4 e b else i4 in
    let (others4, moved_f, moved_g, a4, b4) = detach_lr-nodes i a b e f g hf hg ab ea eb fs gs fg in
    let (others5, b5, e5) = fill_left-nodes field i4 b e special eb in
    let (others6, a6, b6, e6) = attach_lr-nodes i5 a b e ab ea eb in
    let same_e : i4.nodes e ≡ i.nodes e = others4 e ea eb (λ h. fs.2 (sym h)) (λ h. gs.2 (sym h)) in
    let same_a : i5.nodes a ≡ i4.nodes a = others5 a ab (λ h. ea (sym h)) in
    (
      (λ y ya yb ye yf yg. others6 y ya yb ye ∙ others5 y yb ye ∙ others4 y ya yb yf yg),
      (λ ne. others6 f fs.0 fs.1 fs.2 ∙ others5 f fs.1 fs.2 ∙ moved_f ne),
      (λ ne. others6 g gs.0 gs.1 gs.2 ∙ others5 g gs.1 gs.2 ∙ moved_g ne),
      ground arith,
      ground arith,
      ground arith,
    )

-- A double rotation: `e` becomes the root above `b` and `a`, its children become theirs.
pub rotate_lr-nodes :
    (field : ℕ → ℕ) (i : Index) (a b e f g : ℕ)
    → b ≡ (i.nodes a).left_child_offset
    → e ≡ (i.nodes b).right_child_offset
    → f ≡ (i.nodes e).left_child_offset
    → g ≡ (i.nodes e).right_child_offset
    → a ≢ b
    → e ≢ a
    → e ≢ b
    → (f ≢ a) × (f ≢ b) × (f ≢ e)
    → (g ≢ a) × (g ≢ b) × (g ≢ e)
    → (f ≢ 0 → f ≢ g)
    → let (r, i') = rotate_lr field i a in
      let A = i.nodes a in
      let B = i.nodes b in
      let E = i.nodes e in
      (r ≡ e)
      × ((y : ℕ) → y ≢ a → y ≢ b → y ≢ e → y ≢ f → y ≢ g → i'.nodes y ≡ i.nodes y)
      × IsMoved i.nodes i'.nodes f b
      × IsMoved i.nodes i'.nodes g a
      × IsPlaced (i'.nodes a) e g E.right_subtree_height A.right_child_offset A.right_subtree_height
      × IsPlaced (i'.nodes b) e B.left_child_offset B.left_subtree_height f E.left_subtree_height
      × IsPlaced
          (i'.nodes e)
          E.parent_offset
          b
          (above B.left_subtree_height E.left_subtree_height)
          a
          (above E.right_subtree_height A.right_subtree_height)
unfolding rotate_lr
rotate_lr-nodes field i a b e f g hb he hf hg ab ea eb fs gs fg =
    let i4 = detach_lr i a b e in
    let (others, moved_f, moved_g, new_a, new_b, new_e) =
      lr_core field i a b e f g (is_special (i4.nodes e) (i4.nodes b)) hf hg ab ea eb fs gs fg in
    rw (rotate_lr, ← hb, ← he) (refl, others, moved_f, moved_g, new_a, new_b, new_e)

detach_rl-nodes :
    (i : Index) (a b e f g : ℕ)
    → f ≡ (i.nodes e).left_child_offset
    → g ≡ (i.nodes e).right_child_offset
    → a ≢ b
    → e ≢ a
    → e ≢ b
    → (f ≢ a) × (f ≢ b) × (f ≢ e)
    → (g ≢ a) × (g ≢ b) × (g ≢ e)
    → (f ≢ 0 → f ≢ g)
    → let m = (detach_rl i a b e).nodes in
      let A = i.nodes a in
      let B = i.nodes b in
      let E = i.nodes e in
      ((y : ℕ) → y ≢ a → y ≢ b → y ≢ f → y ≢ g → m y ≡ i.nodes y)
      × IsMoved i.nodes m f a
      × IsMoved i.nodes m g b
      × IsPlaced
          (m a)
          A.parent_offset
          A.left_child_offset
          A.left_subtree_height
          f
          E.left_subtree_height
      × IsPlaced
          (m b)
          B.parent_offset
          g
          E.right_subtree_height
          B.right_child_offset
          B.right_subtree_height
unfolding detach_rl set_parent_if set_parent modify
detach_rl-nodes i a b e f g hf hg ab ea eb fs gs fg = elim (Bool-cases (f == 0)) [
  | inl nf ↦ elim (Bool-cases (g == 0)) [
    | inl ng ↦ (
      (λ y ya yb yf yg. ground arith),
      (λ ne. ground arith),
      (λ ne. ground arith),
      ground arith,
      ground arith,
    )
    | inr sg ↦ (
      (λ y ya yb yf yg. ground arith),
      (λ ne. ground arith),
      (λ ne. ground arith),
      ground arith,
      ground arith,
    )
  ]
  | inr sf ↦ elim (Bool-cases (g == 0)) [
    | inl ng ↦ (
      (λ y ya yb yf yg. ground arith),
      (λ ne. ground arith),
      (λ ne. ground arith),
      ground arith,
      ground arith,
    )
    | inr sg ↦ (
      (λ y ya yb yf yg. ground arith),
      (λ ne. ground arith),
      (λ ne. ground arith),
      ground arith,
      ground arith,
    )
  ]
]

attach_rl-nodes :
    (i : Index) (a b e : ℕ)
    → a ≢ b
    → e ≢ a
    → e ≢ b
    → let m = (attach_rl i a b e).nodes in
      let A = i.nodes a in
      let B = i.nodes b in
      ((y : ℕ) → y ≢ a → y ≢ b → y ≢ e → m y ≡ i.nodes y)
      × IsPlaced
          (m a)
          e
          A.left_child_offset
          A.left_subtree_height
          A.right_child_offset
          A.right_subtree_height
      × IsPlaced
          (m b)
          e
          B.left_child_offset
          B.left_subtree_height
          B.right_child_offset
          B.right_subtree_height
      × IsPlaced
          (m e)
          (i.nodes e).parent_offset
          a
          (above A.left_subtree_height A.right_subtree_height)
          b
          (above B.left_subtree_height B.right_subtree_height)
unfolding attach_rl set_parent modify height_above
attach_rl-nodes i a b e ab ea eb =
    ((λ y ya yb ye. ground arith), ground arith, ground arith, ground arith)

-- The values move, and all links stay.
fill_right-nodes :
    (field : ℕ → ℕ) (i : Index) (b e : ℕ) (special : Bool)
    → e ≢ b
    → let m = (if special then fill_right field i e b else i).nodes in
      ((y : ℕ) → y ≢ b → y ≢ e → m y ≡ i.nodes y)
      × HasLinksOf (m b) (i.nodes b)
      × HasLinksOf (m e) (i.nodes e)
unfolding fill_right modify
fill_right-nodes field i b e true eb = ((λ y yb ye. ground arith), ground arith, ground arith)
fill_right-nodes field i b e false eb = ((λ y yb ye. refl), ground arith, ground arith)

rl_core :
    (field : ℕ → ℕ) (i : Index) (a b e f g : ℕ) (special : Bool)
    → f ≡ (i.nodes e).left_child_offset
    → g ≡ (i.nodes e).right_child_offset
    → a ≢ b
    → e ≢ a
    → e ≢ b
    → (f ≢ a) × (f ≢ b) × (f ≢ e)
    → (g ≢ a) × (g ≢ b) × (g ≢ e)
    → (f ≢ 0 → f ≢ g)
    → let i4 = detach_rl i a b e in
      let i' = attach_rl (if special then fill_right field i4 e b else i4) a b e in
      let A = i.nodes a in
      let B = i.nodes b in
      let E = i.nodes e in
      ((y : ℕ) → y ≢ a → y ≢ b → y ≢ e → y ≢ f → y ≢ g → i'.nodes y ≡ i.nodes y)
      × IsMoved i.nodes i'.nodes f a
      × IsMoved i.nodes i'.nodes g b
      × IsPlaced (i'.nodes a) e A.left_child_offset A.left_subtree_height f E.left_subtree_height
      × IsPlaced (i'.nodes b) e g E.right_subtree_height B.right_child_offset B.right_subtree_height
      × IsPlaced
          (i'.nodes e)
          E.parent_offset
          a
          (above A.left_subtree_height E.left_subtree_height)
          b
          (above E.right_subtree_height B.right_subtree_height)
rl_core field i a b e f g special hf hg ab ea eb fs gs fg =
    let i4 = detach_rl i a b e in
    let i5 = if special then fill_right field i4 e b else i4 in
    let (others4, moved_f, moved_g, a4, b4) = detach_rl-nodes i a b e f g hf hg ab ea eb fs gs fg in
    let (others5, b5, e5) = fill_right-nodes field i4 b e special eb in
    let (others6, a6, b6, e6) = attach_rl-nodes i5 a b e ab ea eb in
    let same_e : i4.nodes e ≡ i.nodes e = others4 e ea eb (λ h. fs.2 (sym h)) (λ h. gs.2 (sym h)) in
    let same_a : i5.nodes a ≡ i4.nodes a = others5 a ab (λ h. ea (sym h)) in
    (
      (λ y ya yb ye yf yg. others6 y ya yb ye ∙ others5 y yb ye ∙ others4 y ya yb yf yg),
      (λ ne. others6 f fs.0 fs.1 fs.2 ∙ others5 f fs.1 fs.2 ∙ moved_f ne),
      (λ ne. others6 g gs.0 gs.1 gs.2 ∙ others5 g gs.1 gs.2 ∙ moved_g ne),
      ground arith,
      ground arith,
      ground arith,
    )

-- A double rotation: `e` becomes the root above `b` and `a`, its children become theirs.
pub rotate_rl-nodes :
    (field : ℕ → ℕ) (i : Index) (a b e f g : ℕ)
    → b ≡ (i.nodes a).right_child_offset
    → e ≡ (i.nodes b).left_child_offset
    → f ≡ (i.nodes e).left_child_offset
    → g ≡ (i.nodes e).right_child_offset
    → a ≢ b
    → e ≢ a
    → e ≢ b
    → (f ≢ a) × (f ≢ b) × (f ≢ e)
    → (g ≢ a) × (g ≢ b) × (g ≢ e)
    → (f ≢ 0 → f ≢ g)
    → let (r, i') = rotate_rl field i a in
      let A = i.nodes a in
      let B = i.nodes b in
      let E = i.nodes e in
      (r ≡ e)
      × ((y : ℕ) → y ≢ a → y ≢ b → y ≢ e → y ≢ f → y ≢ g → i'.nodes y ≡ i.nodes y)
      × IsMoved i.nodes i'.nodes f a
      × IsMoved i.nodes i'.nodes g b
      × IsPlaced (i'.nodes a) e A.left_child_offset A.left_subtree_height f E.left_subtree_height
      × IsPlaced (i'.nodes b) e g E.right_subtree_height B.right_child_offset B.right_subtree_height
      × IsPlaced
          (i'.nodes e)
          E.parent_offset
          a
          (above A.left_subtree_height E.left_subtree_height)
          b
          (above E.right_subtree_height B.right_subtree_height)
unfolding rotate_rl
rotate_rl-nodes field i a b e f g hb he hf hg ab ea eb fs gs fg =
    let i4 = detach_rl i a b e in
    let (others, moved_f, moved_g, new_a, new_b, new_e) =
      rl_core field i a b e f g (is_special (i4.nodes e) (i4.nodes b)) hf hg ab ea eb fs gs fg in
    rw (rotate_rl, ← hb, ← he) (refl, others, moved_f, moved_g, new_a, new_b, new_e)
