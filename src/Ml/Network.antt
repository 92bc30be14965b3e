-- ===== src/Ml/Network.antt =====
-- The neural network of workloads/machine_learning/wasm-src/machine_learning.c.
-- The float type and its operations are a parameter; the loops are written out.
pub mod Softmax
pub mod Argmax
pub mod Inference
use wasm_cloud_computing_ben.Prelude.{
  ℕ, zero, suc, ◌+◌, Bool, List, [], ◌∷◌, map, if◌then◌else◌, get_or, set, length, Option, none,
  some, take, drop, ◌++◌,
}
use wasm_cloud_computing_ben.Ml.ImageFile.{Image, mnist_image_size}
use wasm_cloud_computing_ben.Ml.Dataset.{Dataset, Batch, batch_images}

abbrev pub mnist_labels : ℕ
mnist_labels = 10

-- `float`: what the code uses of it. `exp` is the library's, `random` the value of a call of `rand`
-- scaled to [0, 1].
pub record Floats : Type 1 where
  pub Float : Type 0
  pub nought : Float
  pub add : Float → Float → Float
  pub sub : Float → Float → Float
  pub mul : Float → Float → Float
  pub div : Float → Float → Float
  pub exp : Float → Float
  pub lt : Float → Float → Bool
  -- `PIXEL_SCALE`
  pub pixel_scale : ℕ → Float

module _ (fl : Floats) where
  open fl use {Float, nought, add, sub, mul, div, exp, lt, pixel_scale}

  -- `neural_network_t`
  pub record Network : Type 0 where
    pub b : List Float
    pub W : List (List Float)

  -- A row of `n` values, each from a call of `RAND_FLOAT`; the calls are numbered from `k` on.
  pub rand_row : (ℕ → Float) → ℕ → ℕ → List Float
  rand_row rand k zero = []
  rand_row rand k (suc n) = rand k ∷ rand_row rand (k + 1) n

  -- Label by label: the bias, then the row of weights.
  pub rand_labels : (ℕ → Float) → ℕ → ℕ → List Float × List (List Float)
  rand_labels rand k zero = ([], [])
  rand_labels rand k (suc n) =
      let (bs, ws) = rand_labels rand (k + 1 + mnist_image_size) n in
      (rand k ∷ bs, rand_row rand (k + 1) mnist_image_size ∷ ws)

  unfoldable pub neural_network_random_weights : (ℕ → Float) → Network
  neural_network_random_weights rand =
      let (bs, ws) = rand_labels rand 0 mnist_labels in record { b = bs; W = ws }

  -- The first loop of `neural_network_softmax`, over `activations[1 ..]`.
  unfoldable pub max_loop : Float → List Float → Float
  max_loop max [] = max
  max_loop max (a ∷ rest) = max_loop (if lt max a then a else max) rest

  -- The second loop: the exponentials, and their sum.
  unfoldable pub exp_loop : Float → Float → List Float → List Float × Float
  exp_loop max sum [] = ([], sum)
  exp_loop max sum (a ∷ rest) =
      let e = exp (sub a max) in let (es, total) = exp_loop max (add sum e) rest in (e ∷ es, total)

  -- The code reads `activations[0]` first, so the length is not 0.
  unfoldable pub neural_network_softmax : List Float → List Float
  unfolding max_loop exp_loop
  neural_network_softmax [] = []
  neural_network_softmax (a ∷ rest) =
      let max = max_loop a rest in
      let (es, sum) = exp_loop max nought (a ∷ rest) in map (λ e. div e sum) es

  -- The inner loop of `neural_network_hypothesis`, from the bias on.
  unfoldable pub weigh : Float → List Float → Image → Float
  weigh acc [] ps = acc
  weigh acc (w ∷ ws) [] = acc
  weigh acc (w ∷ ws) (p ∷ ps) = weigh (add acc (mul w (pixel_scale p))) ws ps

  unfoldable pub weigh_labels : List Float → List (List Float) → Image → List Float
  unfolding weigh
  weigh_labels [] ws image = []
  weigh_labels (b ∷ bs) [] image = b ∷ weigh_labels bs [] image
  weigh_labels (b ∷ bs) (w ∷ ws) image = weigh b w image ∷ weigh_labels bs ws image

  -- The activations of one image.
  unfoldable pub neural_network_hypothesis : Image → Network → List Float
  neural_network_hypothesis image network =
      neural_network_softmax (weigh_labels network.b network.W image)

  -- The loop that looks for the greatest activation, at index `j` with the greatest so far.
  unfoldable pub predict_loop : Float → ℕ → ℕ → List Float → ℕ
  predict_loop max predict j [] = predict
  predict_loop max predict j (a ∷ rest) =
      predict_loop (if lt max a then a else max) (if lt max a then j else predict) (j + 1) rest

  -- `activations[0]` is compared with itself first, as in the code.
  unfoldable pub predict_label : List Float → ℕ
  unfolding predict_loop
  predict_label [] = 0
  predict_label (a ∷ rest) = predict_loop a 0 0 (a ∷ rest)

  -- The outer loop of `neural_network_inference`, from index `i` on. A write behind the end of the
  -- array changes nothing here.
  unfoldable pub inference_loop : Network → ℕ → List Image → List ℕ → List ℕ
  inference_loop network i [] predictions = predictions
  inference_loop network i (image ∷ images) predictions =
      inference_loop network (i + 1) images
        (set predictions i (predict_label (neural_network_hypothesis image network)))

  unfoldable pub neural_network_inference : List Image → Network → List ℕ → List ℕ
  unfolding inference_loop
  neural_network_inference images network predictions = inference_loop network 0 images predictions
