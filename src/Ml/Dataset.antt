-- ===== src/Ml/Dataset.antt =====
-- Datasets and batches: `mnist_get_dataset`, `mnist_free_dataset` and `mnist_batch` of
-- workloads/machine_learning/wasm-src/machine_learning.c.
pub mod Batches
pub mod Load
use wasm_cloud_computing_ben.Prelude.{
  ℕ, ◌+◌, ◌-◌, ◌%◌, ◌^◌, Bool, Option, none, some, List, [], ◌∷◌, ◌++◌, ltb, leb, if◌then◌else◌,
  take, drop,
}
use wasm_cloud_computing_ben.Prelude.Int.{ℤ, mul_ℕ, to_u32}
use wasm_cloud_computing_ben.Ml.ImageFile.{
  Image, Event, allocated, freed, Reply, null, overrun, images, get_images,
}

-- `mnist_dataset_t`: the images behind the pointer, and the size (`uint32_t`).
pub record Dataset : Type 0 where
  pub images : List Image
  pub size : ℕ

pub data Got : Type 0 where
  no_dataset corrupt : Got
  got : Dataset → Got

abbrev pub dataset_bytes : ℕ
dataset_bytes = 8

-- `free(dataset->images)`, which does nothing on NULL, and `free(dataset)`.
unfoldable pub mnist_free_dataset : Bool → List Event
mnist_free_dataset has_images = if has_images then freed ∷ freed ∷ [] else freed ∷ []

-- What is left of `mnist_get_dataset` once `get_images` has returned.
unfoldable pub fill_dataset : List Event × Reply → List Event × Got
unfolding mnist_free_dataset
fill_dataset (events, null) = (events ++ mnist_free_dataset Bool.false, no_dataset)
fill_dataset (events, overrun) = (events, corrupt)
fill_dataset (events, images n is) = (events, got (record { images = is; size = n }))

-- `calloc` and `malloc` answer by the size they are asked for.
unfoldable pub mnist_get_dataset : (ℕ → Bool) → Option (List ℕ) → List Event × Got
unfolding fill_dataset
mnist_get_dataset malloc file =
    if malloc dataset_bytes
    then (let (events, out) = fill_dataset (get_images malloc file) in
        (allocated dataset_bytes ∷ events, out))
    else ([], no_dataset)

-- A batch shares the images of its parent: `start` is the index that its pointer points to.
pub record Batch : Type 0 where
  pub start : ℕ
  pub size : ℕ

-- The images that a batch shows.
abbrev pub batch_images : Dataset → Batch → List Image
batch_images d b = take b.size (drop b.start d.images)

-- `none` is the result 0: `*batch` is not written. The product is an `int`, converted to `unsigned`;
-- one that does not fit an `int` wraps around, which C leaves undefined.
unfoldable pub mnist_batch : Dataset → ℕ → ℤ → Option Batch
mnist_batch d size number =
    let start_offset = to_u32 (mul_ℕ size number) in
    if leb d.size start_offset
    then none
    else some (record {
      start = start_offset;
      size = if ltb d.size ((start_offset + size) % 2 ^ 32) then d.size - start_offset else size;
    })
