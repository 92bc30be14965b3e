-- ===== src/Ml/Dataset/Batches.antt =====
-- The batches of a dataset: where they lie, and that together they are the dataset.
use wasm_cloud_computing_ben.Prelude.{
  ℕ, zero, suc, ◌+◌, ◌-◌, ◌*◌, ◌^◌, ◌≤◌, ◌<◌, ◌≡◌, refl, sym, ap, ◌∙◌, none, some, List, [], ◌∷◌,
  ◌++◌, leb, if◌then◌else◌, take, drop, length, arith, min, drop_all,
}
use wasm_cloud_computing_ben.Prelude.Int.{ℤ, pos}
use wasm_cloud_computing_ben.Ml.ImageFile.{Image}
use wasm_cloud_computing_ben.Ml.Dataset.{Dataset, Batch, batch_images, mnist_batch}

-- The dataset holds as many images as its size says.
abbrev pub IsWhole : Dataset → Type 0
IsWhole d = length d.images ≡ d.size

-- With numbers that stay below 2 ^ 32, batch `n` starts at `size * n` and has the rest of the dataset
-- or `size` images, whichever is less; behind the end there is no batch.
pub mnist_batch_lem :
    (d : Dataset) (size n : ℕ)
    → size * n + size < 2 ^ 32
    → mnist_batch d size (pos n) ≡ (
        if leb d.size (size * n)
        then none
        else some (record { start = size * n; size = min size (d.size - size * n) }))
unfolding mnist_batch
mnist_batch_lem d size n h = ground arith

-- A batch lies inside its dataset, whatever number is asked for, the negative ones included, as long
-- as the dataset and the batch together stay below 2 ^ 32.
mnist_batch_in_bounds :
    (d : Dataset) (size : ℕ) (number : ℤ) {b : Batch}
    → d.size + size < 2 ^ 32
    → mnist_batch d size number ≡ some b
    → (b.start < d.size) × (b.start + b.size ≤ d.size) × (b.size ≤ size)
unfolding mnist_batch
mnist_batch_in_bounds d size number h e = ground arith

-- The images of the batches `n`, `n + 1`, ... in order, until `mnist_batch` returns 0 or `fuel`
-- batches are made.
unfoldable pub all_batches : Dataset → ℕ → ℕ → ℕ → List Image
all_batches d size zero n = []
all_batches d size (suc fuel) n =
    let rest = all_batches d size fuel (n + 1) in
    elim (mnist_batch d size (pos n)) [ none ↦ [] | some b ↦ batch_images d b ++ rest ]

take-nil {ℓ} : {A : Type ℓ} (n : ℕ) → take {A = A} n [] ≡ []
take-nil zero = refl
take-nil (suc n) = refl

take-min-append-drop :
    (k m : ℕ) (xs : List Image) → m ≡ min k (length xs) → take m xs ++ drop k xs ≡ xs
take-min-append-drop zero zero xs h = refl
take-min-append-drop zero (suc m) xs h = absurd (omega arith)
take-min-append-drop (suc k) m [] h = rw (take-nil m)
take-min-append-drop (suc k) zero (x ∷ xs) h = absurd (omega arith)
take-min-append-drop (suc k) (suc m) (x ∷ xs) h =
    ap (λ ys. x ∷ ys) (take-min-append-drop k m xs (omega arith))

-- A window of `k` elements from `a` on, cut at the end of the list, and what lies behind it.
window-append-drop :
    (a j k m : ℕ) (xs : List Image)
    → j ≡ a + k
    → m ≡ min k (length xs - a)
    → take m (drop a xs) ++ drop j xs ≡ drop a xs
window-append-drop zero j k m xs e h =
    let same : j ≡ k = omega arith in rw same (take-min-append-drop k m xs (omega arith))
window-append-drop (suc a) zero k m xs e h = absurd (omega arith)
window-append-drop (suc a) (suc j) k m [] e h = rw (take-nil m)
window-append-drop (suc a) (suc j) k m (x ∷ xs) e h =
    window-append-drop a j k m xs (omega arith) (omega arith)

all_batches-drop :
    (d : Dataset) (size fuel n : ℕ)
    → IsWhole d
    → size * (n + fuel) + size < 2 ^ 32
    → d.size ≤ size * (n + fuel)
    → all_batches d size fuel n ≡ drop (size * n) d.images
unfolding all_batches
all_batches-drop d size zero n whole small covered =
    sym (drop_all (size * n) d.images (grind arith))
all_batches-drop d size (suc fuel) n whole small covered = ground (
  arith,
  mnist_batch_lem d size n,
  all_batches-drop d size fuel (n + 1) whole (omega arith) (omega arith),
  window-append-drop (size * n) (size * (n + 1)) size (min size (d.size - size * n)) d.images
      (omega arith),
  drop_all (size * n) d.images,
)

-- Batches taken in order from number 0 on, are the images of the dataset, each once
-- and in order, if they are enough to cover it and all numbers stay below 2 ^ 32.
pub all_batches_lem :
    (d : Dataset) (size count : ℕ)
    → IsWhole d
    → size * count + size < 2 ^ 32
    → d.size ≤ size * count
    → all_batches d size count 0 ≡ d.images
all_batches_lem d size count whole small covered =
    all_batches-drop d size count 0 whole (omega arith) (omega arith)
    ∙ ap (λ k. drop k d.images) start
  where
    start : size * 0 ≡ 0
    start = omega arith
