-- ===== src/Engine/Ttree/Rotate/Made.antt =====
-- A tree from its parts, for the rotations of workloads/no_sql_db/wasm-src/dbindex.c.
use wasm_cloud_computing_ben.Prelude.{ℕ, ◌<◌, ◌≡◌, ◌≢◌, refl, ◌∙◌, arith}
use wasm_cloud_computing_ben.Engine.Ttree.{Tnode}
use wasm_cloud_computing_ben.Engine.Ttree.Shape.{Tree, fork, height, IsIn, IsTree}
use wasm_cloud_computing_ben.Engine.Ttree.Rotate.Nodes.{IsPlaced, above}

-- A node with its links and two subtrees at them make a tree.
pub make :
    (m : ℕ → Tnode) (p q x left right hl hr : ℕ) (l r : Tree)
    → x ≢ 0
    → IsPlaced (m x) q left hl right hr
    → q ≡ p
    → hl ≡ height l
    → hr ≡ height r
    → IsTree m x left l
    → IsTree m x right r
    → IsTree m p x (fork l x r)
unfolding IsTree
make m p q x left right hl hr l r nonzero placed eq el er tl tr = (
  refl,
  nonzero,
  placed.parent_is ∙ eq,
  placed.left_height_is ∙ el,
  placed.right_height_is ∙ er,
  rw (placed.left_is) tl,
  rw (placed.right_is) tr,
)

pub above-height :
    (x y : ℕ) (l r : Tree) (k : ℕ)
    → x ≡ height l
    → y ≡ height r
    → height (fork l k r) < 256
    → above x y ≡ height (fork l k r)
unfolding height
above-height x y l r k el er small = rw (el, er) (ground arith)

pub lower_left : (l r : Tree) (x : ℕ) → height (fork l x r) < 256 → height l < 256
unfolding height
lower_left l r x small = ground arith

pub lower_right : (l r : Tree) (x : ℕ) → height (fork l x r) < 256 → height r < 256
unfolding height
lower_right l r x small = ground arith

-- The nodes outside a tree are kept.
abbrev pub AreKept : (ℕ → Tnode) → (ℕ → Tnode) → Tree → Type 0
AreKept m m' t = (y : ℕ) → (IsIn y t → ⊥) → y ≢ 0 → m' y ≡ m y
