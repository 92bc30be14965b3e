-- ===== src/Ml/Network/Argmax.antt =====
-- The label that `neural_network_inference` predicts, and the array that it fills.
use wasm_cloud_computing_ben.Prelude.{
  ℕ, suc, ◌+◌, ◌<◌, ◌≡◌, ap, ◌∙◌, true, false, List, [], ◌∷◌, get_or, length, arith, Bool-cases,
  inl, inr, ◌⊎◌,
}
use native.Mathlib.Decide.{ℕ_discrete}
use wasm_cloud_computing_ben.Ml.Network.{Floats, predict_loop, predict_label}

-- `<` on floats that are no NaN: a strict weak order.
pub record IsOrdered (fl : Floats) : Type 0 where
  pub irrefl : (a : fl.Float) → fl.lt a a ≡ false
  pub between : (a b c : fl.Float) → fl.lt a c ≡ true → (fl.lt a b ≡ true) ⊎ (fl.lt b c ≡ true)
  pub asym : (a b : fl.Float) → fl.lt a b ≡ true → fl.lt b a ≡ false

module _ (fl : Floats) where
  open fl use {Float, nought, lt}

  -- Among the first `n` elements `p` is the first index of a greatest one.
  pub record IsFirstGreatest (xs : List Float) (n p : ℕ) : Type 0 where
    pub inside : p < n
    pub top : (k : ℕ) → k < n → lt (get_or xs p nought) (get_or xs k nought) ≡ false
    pub first : (k : ℕ) → k < p → lt (get_or xs k nought) (get_or xs p nought) ≡ true

module _ {fl : Floats} (ord : IsOrdered fl) (xs : List (fl.Float)) where
  open fl use {Float, nought, lt}

  at : ℕ → Float
  at k = get_or xs k nought

  lt-at_of_lt :
      (j p k : ℕ)
      → IsFirstGreatest fl xs j p
      → lt (at p) (at j) ≡ true
      → k < j
      → lt (at k) (at j) ≡ true
  unfolding at
  lt-at_of_lt j p k g less h = ground (arith, ord.between (at p) (at k) (at j) less, g.top k h)

  IsFirstGreatest-suc_of_lt :
      (j p : ℕ)
      → IsFirstGreatest fl xs j p
      → lt (at p) (at j) ≡ true
      → IsFirstGreatest fl xs (j + 1) j
  IsFirstGreatest-suc_of_lt j p g less = record {
    inside = omega arith;
    top = λ k h.
        unfold at in
        elim (ℕ_discrete k j) [
          | yes e ↦ rw e (ord.irrefl (at j))
          | no ne ↦ ord.asym (at k) (at j) (lt-at_of_lt j p k g less (omega arith))
        ];
    first = λ k h. unfold at in lt-at_of_lt j p k g less h;
  }

  IsFirstGreatest-suc :
      (j p : ℕ)
      → IsFirstGreatest fl xs j p
      → lt (at p) (at j) ≡ false
      → IsFirstGreatest fl xs (j + 1) p
  IsFirstGreatest-suc j p g more = record {
    inside = omega (arith, g.inside);
    top = λ k h.
        unfold at in elim (ℕ_discrete k j) [ yes e ↦ rw e more | no ne ↦ g.top k (omega arith) ];
    first = g.first;
  }

  -- `ys` is what is left of `xs` at index `j`.
  predict_loop_lem :
      (ys : List Float) (j p : ℕ)
      → IsFirstGreatest fl xs j p
      → ((k : ℕ) → at (k + j) ≡ get_or ys k nought)
      → length xs ≡ j + length ys
      → IsFirstGreatest fl xs (length xs) (predict_loop fl (at p) p j ys)
  unfolding predict_loop
  predict_loop_lem [] j p g rest len = let e : length xs ≡ j = omega arith in rw e g
  predict_loop_lem (y ∷ ys) j p g rest len =
      let here : at j ≡ y = ap at (omega arith) ∙ rest 0 in
      let rest' : (k : ℕ) → at (k + (j + 1)) ≡ get_or ys k nought =
        λ k. ap at (omega arith) ∙ rest (suc k) in
      rw (← here) (elim (Bool-cases (lt (at p) (at j))) [
        | inl less ↦ rw less (
            predict_loop_lem ys (j + 1) j (IsFirstGreatest-suc_of_lt j p g less) rest'
              (omega arith))
        | inr more ↦
            rw more
              (predict_loop_lem ys (j + 1) p (IsFirstGreatest-suc j p g more) rest' (omega arith))
      ])

-- On floats ordered by `<`, the label predicted from any activations, at least one, is the index of a
-- greatest activation, and the first such index.
pub predict_label-IsFirstGreatest :
    {fl : Floats} (ord : IsOrdered fl) (a : fl.Float) (rest : List (fl.Float))
    → IsFirstGreatest fl (a ∷ rest) (length (a ∷ rest)) (predict_label fl (a ∷ rest))
unfolding predict_label predict_loop
predict_label-IsFirstGreatest {fl} ord a rest =
    rw (ord.irrefl a)
      (unfold at in predict_loop_lem ord (a ∷ rest) rest (0 + 1) 0 start next (omega arith))
  where
    start : IsFirstGreatest fl (a ∷ rest) (0 + 1) 0
    start = record {
      inside = omega arith;
      top = λ k h. let z : k ≡ 0 = omega arith in rw z (ord.irrefl a);
      first = λ k h. elim h [ ];
    }

    next : (k : ℕ) → get_or (a ∷ rest) (k + (0 + 1)) fl.nought ≡ get_or rest k fl.nought
    next k = let e : k + (0 + 1) ≡ suc k = omega arith in rw e
