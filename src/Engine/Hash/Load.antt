-- ===== src/Engine/Hash/Load.antt =====
-- The size of a new table of words.
use wasm_cloud_computing_ben.Prelude.{
  ℕ, ◌*◌, ◌%◌, ◌^◌, ◌≤◌, ◌<◌, ◌≡◌, ◌⊎◌, inl, inr, refl, false, ltb, ◌==◌, List, [], ◌∷◌, All,
  Bool-cases, arith,
}
use wasm_cloud_computing_ben.Engine.Hash.{dhash_size, first_above, primes}

first_above_low : (ps : List ℕ) (w : ℕ) → w < 201326611 → w < first_above ps w
unfolding first_above
first_above_low [] w low = low
first_above_low (p ∷ ps) w low = ground (arith, first_above_low ps w low)

first_above_high : (ps : List ℕ) (w : ℕ) → All (λ p. p ≤ w) ps → first_above ps w ≡ 201326611
unfolding first_above
first_above_high [] w high = refl
first_above_high (p ∷ ps) w (here, high) = ground (arith, first_above_high ps w high)

All-primes : (w : ℕ) → 201326611 ≤ w → All (λ p. p ≤ w) primes
All-primes w high = ground arith

-- For at most 2147483645 entries: a table for at most 100663305 of them has more than two slots for each; one
-- for more has 201326611 slots, fewer than two for each.
pub dhash_size_lem :
    (entries : ℕ)
    → entries ≤ 2147483645
    → ((entries ≤ 100663305) × (2 * entries < dhash_size entries))
      ⊎ ((100663305 < entries)
          × (dhash_size entries ≡ 201326611)
          × (dhash_size entries < 2 * entries))
unfolding dhash_size
dhash_size_lem entries small =
    let supported : ltb 2147483645 entries ≡ false = ground arith in
    let exact : entries * 2 % 2 ^ 32 ≡ 2 * entries = omega arith in
    elim (Bool-cases (ltb 100663305 entries)) [
      | inl many ↦
          let size =
            first_above_high primes (2 * entries) (All-primes (2 * entries) (ground arith)) in
          rw (supported, exact, size) (inr (ground arith, refl, ground arith))
      | inr few ↦
          let low = first_above_low primes (2 * entries) (ground arith) in
          rw (supported, exact) (inl (ground arith, low))
    ]

pub dhash_size_some : (entries : ℕ) → entries ≤ 2147483645 → (dhash_size entries == 0) ≡ false
dhash_size_some entries small = ground (arith, dhash_size_lem entries small)
