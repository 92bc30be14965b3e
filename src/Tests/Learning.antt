-- ===== src/Tests/Learning.antt =====
-- The machine learning server at concrete inputs. Floats are numbers here, ordered by `<`.

use wasm_cloud_computing_ben.Prelude.{
  ℕ, ◌+◌, ◌-◌, ◌*◌, ◌/◌, ◌≡◌, refl, Bool, true, some, List, [], ◌∷◌, ◌++◌, map, arith, replicate,
  ltb, ◌⊎◌,
}
use wasm_cloud_computing_ben.Ml.ByteOrder.{map_uint32}
use wasm_cloud_computing_ben.Ml.ImageFile.{Image, get_images, opened, allocated, closed, images}
use wasm_cloud_computing_ben.Ml.ImageFile.Effects.{IsOverrun}
use wasm_cloud_computing_ben.Ml.ImageFile.RoundTrip.{encode, get_images-encode, be_bytes}
use wasm_cloud_computing_ben.Ml.Dataset.{Dataset}
use wasm_cloud_computing_ben.Ml.Dataset.Batches.{all_batches, all_batches_lem}
use wasm_cloud_computing_ben.Ml.Network.{Floats, Network, predict_label, neural_network_inference}
use wasm_cloud_computing_ben.Ml.Network.Argmax.{
  IsOrdered, IsFirstGreatest, predict_label-IsFirstGreatest,
}
use wasm_cloud_computing_ben.Ml.Network.Inference.{classify, neural_network_inference_lem}

map_uint32_runs : map_uint32 0x0308_0000 ≡ 0x803
unfolding map_uint32
map_uint32_runs = refl

-- A file of one image.
abbrev pub one_image : List Image
one_image = replicate 784 7 ∷ []

abbrev pub grant : ℕ → Bool
grant n = true

get_images-encode_example :
    get_images grant (some (encode one_image))
    ≡ (opened ∷ allocated 784 ∷ closed ∷ [], images 1 one_image)
get_images-encode_example = get_images-encode grant one_image (refl, tt) (omega arith) refl

-- A header that announces 5478275 images: 4294967600 bytes, of which `malloc` sees 304.
abbrev long_file : List ℕ
long_file = be_bytes 0x803 (be_bytes 5478275 (be_bytes 28 (be_bytes 28 (replicate 400 0))))

no_file_ends : ¬ IsOverrun (get_images grant (some (encode one_image))).1
no_file_ends = rw get_images-encode_example (λ h. h)

-- Five images without pixels.
abbrev five : Dataset
five = record { images = replicate 5 []; size = 5 }

all_batches_lem_example : all_batches five 2 3 0 ≡ replicate 5 []
all_batches_lem_example = all_batches_lem five 2 3 refl (omega arith) (omega arith)

-- Whole numbers in place of floats.
abbrev pub numbers : Floats
numbers = record {
  Float = ℕ;
  nought = 0;
  add = λ a b. a + b;
  sub = λ a b. a - b;
  mul = λ a b. a * b;
  div = λ a b. a / b;
  exp = λ a. a + 1;
  lt = ltb;
  pixel_scale = λ p. p;
}

ltb_between : (a b c : ℕ) → ltb a c ≡ true → (ltb a b ≡ true) ⊎ (ltb b c ≡ true)
ltb_between a b c h = ground arith

numbers-IsOrdered : IsOrdered numbers
numbers-IsOrdered = record {
  irrefl = λ a. ground arith;
  between = ltb_between;
  asym = λ a b h. ground arith;
}

predict_label-IsFirstGreatest_example :
    IsFirstGreatest numbers (1 ∷ 5 ∷ 3 ∷ 5 ∷ []) 4 (predict_label numbers (1 ∷ 5 ∷ 3 ∷ 5 ∷ []))
predict_label-IsFirstGreatest_example =
    predict_label-IsFirstGreatest numbers-IsOrdered 1 (5 ∷ 3 ∷ 5 ∷ [])

predict_label_runs : predict_label numbers (1 ∷ 5 ∷ 3 ∷ 5 ∷ []) ≡ 1
unfolding predict_label
predict_label_runs = refl

-- Ten biases; the weights are never reached by images without pixels.
abbrev pub biased : Network numbers
biased = record { b = 0 ∷ 0 ∷ 0 ∷ 4 ∷ 0 ∷ 0 ∷ 9 ∷ 0 ∷ 0 ∷ 0 ∷ []; W = replicate 10 [] }

neural_network_inference_lem_example :
    neural_network_inference numbers (replicate 2 []) biased (8 ∷ 8 ∷ 8 ∷ [])
    ≡ map (classify numbers biased) (replicate 2 []) ++ (8 ∷ [])
neural_network_inference_lem_example =
    neural_network_inference_lem numbers biased (replicate 2 []) (8 ∷ 8 ∷ 8 ∷ []) (omega arith)
