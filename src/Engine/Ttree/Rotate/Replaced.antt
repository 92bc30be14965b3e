-- ===== src/Engine/Ttree/Rotate/Replaced.antt =====
-- What a rotation makes of a tree: its nodes, their order and the heights.
use mathlib.Core.List.{append_assoc}
use wasm_cloud_computing_ben.Prelude.{ℕ, ◌+◌, ◌≤◌, ◌<◌, ◌≡◌, inl, inr, refl, sym, ◌∙◌, ◌∷◌, arith}
use wasm_cloud_computing_ben.Engine.Ttree.Shape.{
  Tree, fork, in_order, height, IsBalanced, IsIn, IsDistinct, HasOwnRoot,
}

-- A tree in place of another: balanced, with the same nodes in the same order, and lower by one at most.
pub record Replaces (t t' : Tree) : Type 0 where
  pub order : in_order t' ≡ in_order t
  pub balanced : IsBalanced t'
  pub lower : height t' ≤ height t
  pub by_one : height t ≤ height t' + 1
  pub inside : (y : ℕ) → IsIn y t' → IsIn y t
  pub own : HasOwnRoot t'

pub ll-Replaces :
    (a b : ℕ) (D E C : Tree)
    → let t = fork (fork D b E) a C in
      IsDistinct t
      → height (fork D b E) ≡ height C + 2
      → height E ≤ height D
      → IsBalanced (fork D b E)
      → IsBalanced C
      → Replaces t (fork D b (fork E a C))
unfolding in_order height IsBalanced IsIn IsDistinct HasOwnRoot
ll-Replaces a b D E C (xl, xr, lr, (dD, dE, apart, DD, DE), DC) high less left right = record {
  order = sym (append_assoc (in_order D) (b ∷ in_order E) (a ∷ in_order C));
  balanced = ground arith;
  lower = ground arith;
  by_one = ground arith;
  inside = λ y h. ground arith;
  own = (
    dD,
    λ y h q. elim h [
      | inl k ↦ dE y k q
      | inr (inl k) ↦ xl b (inr (inl refl)) (sym q ∙ k)
      | inr (inr k) ↦ lr b y (inr (inl refl)) k (sym q)
    ],
  );
}

pub rr-Replaces :
    (a b : ℕ) (C E D : Tree)
    → let t = fork C a (fork E b D) in
      IsDistinct t
      → height (fork E b D) ≡ height C + 2
      → height E ≤ height D
      → IsBalanced C
      → IsBalanced (fork E b D)
      → Replaces t (fork (fork C a E) b D)
unfolding in_order height IsBalanced IsIn IsDistinct HasOwnRoot
rr-Replaces a b C E D (xl, xr, lr, DC, (dE, dD, apart, DE, DD)) high less left right = record {
  order = append_assoc (in_order C) (a ∷ in_order E) (b ∷ in_order D);
  balanced = ground arith;
  lower = ground arith;
  by_one = ground arith;
  inside = λ y h. ground arith;
  own = (
    (λ y h q. elim h [
      | inl k ↦ lr y b k (inr (inl refl)) q
      | inr (inl k) ↦ xr b (inr (inl refl)) (sym q ∙ k)
      | inr (inr k) ↦ dE y k q
    ]),
    dD,
  );
}

lr-IsBalanced :
    (a b e : ℕ) (D F G C : Tree)
    → height (fork D b (fork F e G)) ≡ height C + 2
    → height D < height (fork F e G)
    → IsBalanced (fork D b (fork F e G))
    → IsBalanced C
    → IsBalanced (fork (fork D b F) e (fork G a C))
unfolding height IsBalanced
lr-IsBalanced a b e D F G C high less left right = ground arith

lr_lower :
    (a b e : ℕ) (D F G C : Tree)
    → height (fork D b (fork F e G)) ≡ height C + 2
    → height D < height (fork F e G)
    → height (fork (fork D b F) e (fork G a C)) ≤ height (fork (fork D b (fork F e G)) a C)
unfolding height
lr_lower a b e D F G C high less = ground arith

lr_by_one :
    (a b e : ℕ) (D F G C : Tree)
    → height (fork D b (fork F e G)) ≡ height C + 2
    → height D < height (fork F e G)
    → height (fork (fork D b (fork F e G)) a C) ≤ height (fork (fork D b F) e (fork G a C)) + 1
unfolding height
lr_by_one a b e D F G C high less = ground arith

lr_inside :
    (a b e : ℕ) (D F G C : Tree) (y : ℕ)
    → IsIn y (fork (fork D b F) e (fork G a C))
    → IsIn y (fork (fork D b (fork F e G)) a C)
unfolding IsIn
lr_inside a b e D F G C y h = ground arith

lr_own :
    (a b e : ℕ) (D F G C : Tree)
    → IsDistinct (fork (fork D b (fork F e G)) a C)
    → HasOwnRoot (fork (fork D b F) e (fork G a C))
unfolding IsIn IsDistinct HasOwnRoot
lr_own a b e D F G C (xl, xr, lr, (dD, dE, apart, DD, (eF, eG, FG, DF, DG)), DC) = (
  (λ y h q. elim h [
    | inl k ↦ apart y e k (inr (inl refl)) q
    | inr (inl k) ↦ dE e (inr (inl refl)) (sym q ∙ k)
    | inr (inr k) ↦ eF y k q
  ]),
  (λ y h q. elim h [
    | inl k ↦ eG y k q
    | inr (inl k) ↦ xl e (inr (inr (inr (inl refl)))) (sym q ∙ k)
    | inr (inr k) ↦ lr e y (inr (inr (inr (inl refl)))) k (sym q)
  ]),
)

pub lr-Replaces :
    (a b e : ℕ) (D F G C : Tree)
    → IsDistinct (fork (fork D b (fork F e G)) a C)
    → height (fork D b (fork F e G)) ≡ height C + 2
    → height D < height (fork F e G)
    → IsBalanced (fork D b (fork F e G))
    → IsBalanced C
    → Replaces (fork (fork D b (fork F e G)) a C) (fork (fork D b F) e (fork G a C))
unfolding in_order
lr-Replaces a b e D F G C distinct high less left right = record {
  order = simp append_assoc;
  balanced = lr-IsBalanced a b e D F G C high less left right;
  lower = lr_lower a b e D F G C high less;
  by_one = lr_by_one a b e D F G C high less;
  inside = lr_inside a b e D F G C;
  own = lr_own a b e D F G C distinct;
}

rl-IsBalanced :
    (a b e : ℕ) (C F G D : Tree)
    → height (fork (fork F e G) b D) ≡ height C + 2
    → height D < height (fork F e G)
    → IsBalanced C
    → IsBalanced (fork (fork F e G) b D)
    → IsBalanced (fork (fork C a F) e (fork G b D))
unfolding height IsBalanced
rl-IsBalanced a b e C F G D high less left right = ground arith

rl_lower :
    (a b e : ℕ) (C F G D : Tree)
    → height (fork (fork F e G) b D) ≡ height C + 2
    → height D < height (fork F e G)
    → height (fork (fork C a F) e (fork G b D)) ≤ height (fork C a (fork (fork F e G) b D))
unfolding height
rl_lower a b e C F G D high less = ground arith

rl_by_one :
    (a b e : ℕ) (C F G D : Tree)
    → height (fork (fork F e G) b D) ≡ height C + 2
    → height D < height (fork F e G)
    → height (fork C a (fork (fork F e G) b D)) ≤ height (fork (fork C a F) e (fork G b D)) + 1
unfolding height
rl_by_one a b e C F G D high less = ground arith

rl_inside :
    (a b e : ℕ) (C F G D : Tree) (y : ℕ)
    → IsIn y (fork (fork C a F) e (fork G b D))
    → IsIn y (fork C a (fork (fork F e G) b D))
unfolding IsIn
rl_inside a b e C F G D y h = ground arith

rl_own :
    (a b e : ℕ) (C F G D : Tree)
    → IsDistinct (fork C a (fork (fork F e G) b D))
    → HasOwnRoot (fork (fork C a F) e (fork G b D))
unfolding IsIn IsDistinct HasOwnRoot
rl_own a b e C F G D (xl, xr, lr, DC, (dE, dD, apart, (eF, eG, FG, DF, DG), DD)) = (
  (λ y h q. elim h [
    | inl k ↦ lr y e k (inl (inr (inl refl))) q
    | inr (inl k) ↦ xr e (inl (inr (inl refl))) (sym q ∙ k)
    | inr (inr k) ↦ eF y k q
  ]),
  (λ y h q. elim h [
    | inl k ↦ eG y k q
    | inr (inl k) ↦ dE e (inr (inl refl)) (sym q ∙ k)
    | inr (inr k) ↦ apart e y (inr (inl refl)) k (sym q)
  ]),
)

pub rl-Replaces :
    (a b e : ℕ) (C F G D : Tree)
    → IsDistinct (fork C a (fork (fork F e G) b D))
    → height (fork (fork F e G) b D) ≡ height C + 2
    → height D < height (fork F e G)
    → IsBalanced C
    → IsBalanced (fork (fork F e G) b D)
    → Replaces (fork C a (fork (fork F e G) b D)) (fork (fork C a F) e (fork G b D))
unfolding in_order
rl-Replaces a b e C F G D distinct high less left right = record {
  order = simp append_assoc;
  balanced = rl-IsBalanced a b e C F G D high less left right;
  lower = rl_lower a b e C F G D high less;
  by_one = rl_by_one a b e C F G D high less;
  inside = rl_inside a b e C F G D;
  own = rl_own a b e C F G D distinct;
}
