-- ===== src/Ml/Network/Inference.antt =====
-- The array of predictions that `neural_network_inference` fills.
use wasm_cloud_computing_ben.Prelude.{
  ℕ, suc, ◌+◌, ◌≤◌, ◌<◌, ◌≡◌, refl, ap, ◌∙◌, List, [], ◌∷◌, ◌++◌, map, if◌then◌else◌, set, length,
  drop, arith, length-map, length-append,
}
use mathlib.Core.List.{append_assoc}
use wasm_cloud_computing_ben.Ml.ImageFile.{Image}
use wasm_cloud_computing_ben.Ml.Network.{
  Floats, Network, predict_loop, predict_label, inference_loop, neural_network_inference,
  neural_network_hypothesis, weigh_labels, neural_network_softmax, mnist_labels, exp_loop, max_loop,
}

module _ (fl : Floats) where
  open fl use {Float, nought}

  -- The label of one image.
  abbrev pub classify : Network fl → Image → ℕ
  classify network image = predict_label fl (neural_network_hypothesis fl image network)

  set_middle :
      (done old : List ℕ) (x v : ℕ) → set (done ++ (x ∷ old)) (length done) v ≡ done ++ (v ∷ old)
  set_middle [] old x v = refl
  set_middle (d ∷ ds) old x v = ap (λ l. d ∷ l) (set_middle ds old x v)

  inference_loop_lem :
      (network : Network fl) (images : List Image) (done old : List ℕ) (i : ℕ)
      → i ≡ length done
      → length images ≤ length old
      → inference_loop fl network i images (done ++ old)
        ≡ done ++ (map (classify network) images ++ drop (length images) old)
  unfolding inference_loop
  inference_loop_lem network [] done old i e h = refl
  inference_loop_lem network (image ∷ images) done [] i e h = absurd (omega arith)
  inference_loop_lem network (image ∷ images) done (x ∷ old) i e h =
      rw
        (
          e,
          set_middle done old x (classify network image),
          ← append_assoc done (classify network image ∷ []) old,
        )
        (inference_loop_lem network images (done ++ (classify network image ∷ [])) old
            (length done + 1) (omega (arith, length-append done (classify network image ∷ [])))
            (omega arith)
          ∙ append_assoc done (classify network image ∷ [])
              (map (classify network) images ++ drop (length images) old))

  -- In an array with room for the images, `neural_network_inference` writes the label of each image, in
  -- order from index 0 on, and leaves what stands behind them.
  pub neural_network_inference_lem :
      (network : Network fl) (images : List Image) (predictions : List ℕ)
      → length images ≤ length predictions
      → neural_network_inference fl images network predictions
        ≡ map (classify network) images ++ drop (length images) predictions
  unfolding neural_network_inference
  neural_network_inference_lem network images predictions h =
      inference_loop_lem network images [] predictions 0 refl h

  predict_loop_lt :
      (rest : List Float) (max : Float) (p j : ℕ)
      → p ≤ j
      → 0 < length rest
      → predict_loop fl max p j rest < j + length rest
  unfolding predict_loop
  predict_loop_lt [] max p j h l = absurd (omega arith)
  predict_loop_lt (a ∷ []) max p j h l = ground arith
  predict_loop_lt (a ∷ b ∷ rest) max p j h l = ground (
    arith,
    predict_loop_lt (b ∷ rest) (if fl.lt max a then a else max) (if fl.lt max a then j else p)
        (j + 1),
  )

  length-exp_loop :
      (max sum : Float) (xs : List Float) → length (exp_loop fl max sum xs).0 ≡ length xs
  unfolding exp_loop
  length-exp_loop max sum [] = refl
  length-exp_loop max sum (x ∷ xs) =
      ap suc (length-exp_loop max (fl.add sum (fl.exp (fl.sub x max))) xs)

  length-weigh_labels :
      (bs : List Float) (ws : List (List Float)) (image : Image)
      → length (weigh_labels fl bs ws image) ≡ length bs
  unfolding weigh_labels
  length-weigh_labels [] ws image = refl
  length-weigh_labels (b ∷ bs) [] image = ap suc (length-weigh_labels bs [] image)
  length-weigh_labels (b ∷ bs) (w ∷ ws) image = ap suc (length-weigh_labels bs ws image)

  length-softmax : (xs : List Float) → length (neural_network_softmax fl xs) ≡ length xs
  unfolding neural_network_softmax
  length-softmax [] = refl
  length-softmax (x ∷ xs) =
      length-map _ (exp_loop fl (max_loop fl x xs) nought (x ∷ xs)).0
      ∙ length-exp_loop (max_loop fl x xs) nought (x ∷ xs)

  predict_label_lt : (xs : List Float) → 0 < length xs → predict_label fl xs < length xs
  unfolding predict_label
  predict_label_lt [] h = absurd (omega arith)
  predict_label_lt (x ∷ xs) h = omega (arith, predict_loop_lt (x ∷ xs) x 0 0 (omega arith) h)

  -- A network with a bias for each of the ten labels gives every image a label below ten, whatever the
  -- comparison of floats answers.
  pub classify-lt :
      (network : Network fl) (image : Image)
      → length network.b ≡ mnist_labels
      → classify network image < mnist_labels
  unfolding neural_network_hypothesis
  classify-lt network image h = omega (
    arith,
    predict_label_lt (neural_network_softmax fl (weigh_labels fl network.b network.W image)),
    length-softmax (weigh_labels fl network.b network.W image),
    length-weigh_labels network.b network.W image,
  )
