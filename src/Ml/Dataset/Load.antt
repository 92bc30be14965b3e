-- ===== src/Ml/Dataset/Load.antt =====
-- What `mnist_get_dataset` returns: the shape of a dataset, and the memory that a failure leaves.
use wasm_cloud_computing_ben.Prelude.{
  ℕ, zero, suc, ◌+◌, ◌*◌, ◌≤◌, ◌≡◌, refl, ap, Bool, Option, none, some, List, [], ◌∷◌, ◌++◌, drop,
  length, arith, length-take, length-drop,
}
use wasm_cloud_computing_ben.Ml.ImageFile.{
  Event, freed, opened, Reply, images, get_images, check_header, read_images, split_images,
  mnist_image_size, header_size, read_header,
}
use wasm_cloud_computing_ben.Ml.ImageFile.Effects.{balance, get_images-IsClean}
use wasm_cloud_computing_ben.Ml.ImageFile.RoundTrip.{AllSized}
use wasm_cloud_computing_ben.Ml.Dataset.{
  Dataset, got, no_dataset, fill_dataset, mnist_get_dataset, mnist_free_dataset,
}

split_images-AllSized :
    (n : ℕ) (bs : List ℕ)
    → n * mnist_image_size ≤ length bs
    → (length (split_images n bs) ≡ n) × AllSized (split_images n bs)
unfolding split_images
split_images-AllSized zero bs h = (refl, tt)
split_images-AllSized (suc n) bs h =
    let (counted, sized) =
      split_images-AllSized n (drop 784 bs) (omega (arith, length-drop 784 bs)) in
    (ap suc counted, (omega (arith, length-take 784 bs), sized))

-- A reply of `get_images`: as many images as it says, each of 784 bytes.
abbrev IsSound : Reply → Type 0
IsSound (images n is) = (length is ≡ n) × AllSized is
IsSound _ = Unit

read_images-IsSound :
    (malloc : ℕ → Bool) (n : ℕ) (body : List ℕ) → IsSound (read_images malloc n body).1
unfolding read_images
read_images-IsSound malloc n body = ground (arith, split_images-AllSized n body)

get_images-IsSound :
    (malloc : ℕ → Bool) (file : Option (List ℕ)) → IsSound (get_images malloc file).1
unfolding get_images check_header
get_images-IsSound malloc none = tt
get_images-IsSound malloc (some bs) =
    ground
      (arith, read_images-IsSound malloc (read_header bs).number_of_images (drop header_size bs))

-- A dataset that `mnist_get_dataset` returns has as many images as its size says, and each image has
-- 784 bytes.
mnist_get_dataset-AllSized :
    (malloc : ℕ → Bool) (file : Option (List ℕ)) {d : Dataset}
    → (mnist_get_dataset malloc file).1 ≡ got d
    → (length d.images ≡ d.size) × AllSized d.images
unfolding mnist_get_dataset fill_dataset
mnist_get_dataset-AllSized malloc file e = ground (arith, get_images-IsSound malloc file)

balance-append :
    (xs ys : List Event)
    → ((balance (xs ++ ys)).allocations ≡ (balance xs).allocations + (balance ys).allocations)
      × ((balance (xs ++ ys)).frees ≡ (balance xs).frees + (balance ys).frees)
balance-append [] ys = omega arith
balance-append (opened ∷ xs) ys = omega (arith, balance-append xs ys)
balance-append (x ∷ xs) ys = omega (arith, balance-append xs ys)

-- When `mnist_get_dataset` returns NULL, it has freed as many blocks as it was given.
mnist_get_dataset_null :
    (malloc : ℕ → Bool) (file : Option (List ℕ))
    → (mnist_get_dataset malloc file).1 ≡ no_dataset
    → let b = balance (mnist_get_dataset malloc file).0 in b.allocations ≡ b.frees
unfolding mnist_get_dataset fill_dataset mnist_free_dataset
mnist_get_dataset_null malloc file e =
    ground (
      arith,
      get_images-IsClean malloc file,
      balance-append (get_images malloc file).0 (freed ∷ []),
    )
