-- ===== src/Engine/Ttree/Insert/Slots.antt =====
-- The slots of a node of the T-tree as a list.
use native.Mathlib.Nat.{zero-add}
use wasm_cloud_computing_ben.Prelude.{
  ℕ, zero, suc, ◌+◌, ◌-◌, ◌<◌, ◌≡◌, refl, ap, ap₂, if◌then◌else◌, leb, ltb, ◌&&◌, List, [], ◌∷◌,
  ◌++◌, arith,
}
use wasm_cloud_computing_ben.Engine.{store_word}
use wasm_cloud_computing_ben.Engine.Ttree.Insert.{push_right, push_left}

unfoldable pub slots : ℕ → (ℕ → ℕ) → ℕ → List ℕ
slots zero a s = []
slots (suc n) a s = a s ∷ slots n a (s + 1)

pub slots-ext :
    (n : ℕ) (a b : ℕ → ℕ) (s t : ℕ)
    → ((k : ℕ) → k < n → a (s + k) ≡ b (t + k))
    → slots n a s ≡ slots n b t
unfolding slots
slots-ext zero a b s t same = refl
slots-ext (suc n) a b s t same =
    let here : a s ≡ b t = ground (arith, same 0) in
    ap₂ ◌∷◌ here (slots-ext n a b (s + 1) (t + 1) (λ k h. ground (arith, same (k + 1))))

pub slots-append :
    (m n : ℕ) (a : ℕ → ℕ) (s e : ℕ) → e ≡ s + m → slots (m + n) a s ≡ slots m a s ++ slots n a e
unfolding slots
slots-append zero n a s e h = let z : e ≡ s = omega arith in rw (z, zero-add) refl
slots-append (suc m) n a s e h =
    let z : suc m + n ≡ suc (m + n) = omega arith in
    rw z (ap (λ l. a s ∷ l) (slots-append m n a (s + 1) e (omega arith)))

pub push_right_lem :
    (k : ℕ) (a : ℕ → ℕ) (i x : ℕ)
    → push_right k a i x ≡ (if ltb i x && leb x (i + k) then a (x - 1) else a x)
unfolding push_right store_word
push_right_lem zero a i x = ground arith
push_right_lem (suc k) a i x =
    let ih = push_right_lem k (store_word a (i + suc k) (a (i + k))) i x in ground arith

pub push_left_lem :
    (k : ℕ) (a : ℕ → ℕ) (j x : ℕ)
    → push_left k a j x ≡ (if leb j x && ltb x (j + k) then a (x + 1) else a x)
unfolding push_left store_word
push_left_lem zero a j x = ground arith
push_left_lem (suc k) a j x =
    let ih = push_left_lem k (store_word a j (a (j + 1))) (j + 1) x in ground arith
