-- ===== src/Ml/Network/Softmax.antt =====
-- `neural_network_softmax`: the in-place loops against a description by `map`; and the shape of a
-- network with random weights.
use mathlib.Core.List.{foldl}
use wasm_cloud_computing_ben.Prelude.{
  ℕ, zero, suc, ◌+◌, ◌≡◌, refl, ap, false, List, [], ◌∷◌, map, if◌then◌else◌, length, All, arith,
}
use wasm_cloud_computing_ben.Ml.ImageFile.{mnist_image_size}
use wasm_cloud_computing_ben.Ml.Network.{
  Floats, max_loop, exp_loop, neural_network_softmax, neural_network_random_weights, mnist_labels,
  rand_row, rand_labels,
}
use wasm_cloud_computing_ben.Ml.Network.Argmax.{IsOrdered}

module _ (fl : Floats) where
  open fl use {Float, nought, add, sub, div, exp, lt}

  exp_loop_lem :
      (max sum : Float) (xs : List Float)
      → exp_loop fl max sum xs
        ≡ (map (λ x. exp (sub x max)) xs, foldl add sum (map (λ x. exp (sub x max)) xs))
  unfolding exp_loop
  exp_loop_lem max sum [] = refl
  exp_loop_lem max sum (x ∷ xs) =
      ap (λ r. (exp (sub x max) ∷ r.0, r.1)) (exp_loop_lem max (add sum (exp (sub x max))) xs)

  -- `m` is at least every element so far, and `max_loop` only grows.
  max_loop-top :
      (ord : IsOrdered fl) (m x : Float) (xs : List Float)
      → lt m x ≡ false
      → lt (max_loop fl m xs) x ≡ false
  unfolding max_loop
  max_loop-top ord m x [] h = h
  max_loop-top ord m x (y ∷ ys) h =
      max_loop-top ord (if lt m y then y else m) x ys
        (ground (arith, ord.asym m y, ord.between y m x))

  max_loop-All :
      (ord : IsOrdered fl) (m : Float) (xs : List Float)
      → All (λ x. lt (max_loop fl m xs) x ≡ false) xs
  unfolding max_loop
  max_loop-All ord m [] = tt
  max_loop-All ord m (y ∷ ys) = (
    max_loop-top ord (if lt m y then y else m) y ys (ground (arith, ord.irrefl y)),
    max_loop-All ord (if lt m y then y else m) ys,
  )

  -- The greatest activation, as the code finds it.
  abbrev pub greatest : Float → List Float → Float
  greatest = max_loop fl

  abbrev pub shifted : Float → List Float → List Float
  shifted m = map (λ x. exp (sub x m))

  -- `neural_network_softmax` replaces each activation by `exp` of its distance to the greatest one, over
  -- the sum of all of these from left to right; no activation is greater than that greatest one.
  pub neural_network_softmax_lem :
      (ord : IsOrdered fl) (a : Float) (rest : List Float)
      → let m = greatest a rest in
        let es = shifted m (a ∷ rest) in
        (neural_network_softmax fl (a ∷ rest) ≡ map (λ e. div e (foldl add nought es)) es)
        × All (λ x. lt m x ≡ false) (a ∷ rest)
  unfolding neural_network_softmax
  neural_network_softmax_lem ord a rest = (
    ap (λ r. map (λ e. div e r.1) r.0) (exp_loop_lem (max_loop fl a rest) nought (a ∷ rest)),
    (max_loop-top ord a a rest (ord.irrefl a), max_loop-All ord a rest),
  )

  length-rand_row : (rand : ℕ → Float) (k n : ℕ) → length (rand_row fl rand k n) ≡ n
  unfolding rand_row
  length-rand_row rand k zero = refl
  length-rand_row rand k (suc n) = ap suc (length-rand_row rand (k + 1) n)

  rand_labels-length :
      (rand : ℕ → Float) (k n : ℕ)
      → let (bs, ws) = rand_labels fl rand k n in
        (length bs ≡ n) × (length ws ≡ n) × All (λ w. length w ≡ mnist_image_size) ws
  unfolding rand_labels
  rand_labels-length rand k zero = (refl, refl, tt)
  rand_labels-length rand k (suc n) =
      let (b, w, rows) = rand_labels-length rand (k + 1 + mnist_image_size) n in
      (ap suc b, ap suc w, (length-rand_row rand (k + 1) mnist_image_size, rows))

  -- The network that `neural_network_random_weights` fills has ten biases and ten rows of 784 weights.
  pub neural_network_random_weights_shape :
      (rand : ℕ → Float)
      → let network = neural_network_random_weights fl rand in
        (length network.b ≡ mnist_labels)
        × (length network.W ≡ mnist_labels)
        × All (λ w. length w ≡ mnist_image_size) network.W
  unfolding neural_network_random_weights
  neural_network_random_weights_shape rand = rand_labels-length rand 0 mnist_labels
