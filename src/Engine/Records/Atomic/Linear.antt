-- ===== src/Engine/Records/Atomic/Linear.antt =====
-- A field that is set without a lock, while other threads change the state.
use wasm_cloud_computing_ben.Prelude.{
  ℕ, zero, suc, ◌+◌, ◌*◌, ◌≤◌, ◌<◌, ◌≡◌, ◌⊎◌, inl, inr, refl, sym, Bool, ltb, ◌==◌, Option, some,
  Bool-cases, arith,
}
use wasm_cloud_computing_ben.Prelude.Int.{ℤ, pos, negsuc}
use wasm_cloud_computing_ben.Engine.{State, dbfetch, dbstore}
use wasm_cloud_computing_ben.Engine.Records.{field_offset}
use wasm_cloud_computing_ben.Engine.Records.Atomic.{
  wg_compare_and_swap, wg_update_atomic_field, after_update, set_atomic_rounds, wg_set_atomic_field,
  recordcheck,
}

-- The first `n` changes of the other threads.
unfoldable pub run_others : (ℕ → State → State) → ℕ → State → State
run_others others zero s = s
run_others others (suc n) s = others n (run_others others n s)

pub run_others_round :
    (others : ℕ → State → State) (i : ℕ) (s : State)
    → run_others others (2 * (i + 1)) s
      ≡ others (2 * i + 1) (others (2 * i) (run_others others (2 * i) s))
unfolding run_others
run_others_round others i s =
    let two : 2 * (i + 1) ≡ suc (suc (2 * i)) = omega arith in
    let one : 2 * i + 1 ≡ suc (2 * i) = omega arith in rw (two, one) refl

pub run_others_half :
    (others : ℕ → State → State) (i : ℕ) (s : State)
    → run_others others (1 + 2 * i) s ≡ others (2 * i) (run_others others (2 * i) s)
unfolding run_others
run_others_half others i s = let one : 1 + 2 * i ≡ suc (2 * i) = omega arith in rw one refl

-- An update swaps the word that holds the old value, or fails and changes nothing.
pub updated-cases :
    (is_db : Bool) (is_indexed : ℕ → Bool) (s : State) (r f v old : ℕ)
    → ((dbfetch s (field_offset r f) ≡ old)
        × (wg_update_atomic_field is_db is_indexed s r f v old
            ≡ (pos 0, dbstore s (field_offset r f) v)))
      ⊎ ((k : ℕ) × (wg_update_atomic_field is_db is_indexed s r f v old ≡ (negsuc k, s)))
unfolding wg_update_atomic_field wg_compare_and_swap
updated-cases is_db is_indexed s r f v old = grind arith

-- The other threads alone changed the state, and an error is returned.
abbrev pub IsKept : (ℕ → State → State) → State → Option (ℤ × State) → Type 0
IsKept others s result = (n : ℕ) × (k : ℕ) × (result ≡ some (negsuc k, run_others others n s))

-- The word at `a` was set to `v` at one moment among the other threads' changes.
abbrev pub IsSetOnce : (ℕ → State → State) → State → ℕ → ℕ → Option (ℤ × State) → Type 0
IsSetOnce others s a v result =
    (n : ℕ) × (result ≡ some (pos 0, dbstore (run_others others n s) a v))

set_atomic_rounds-IsSetOnce :
    (fuel : ℕ) (is_db : Bool) (is_indexed : ℕ → Bool) (others : ℕ → State → State) (i : ℕ)
    (s : State) (r f v : ℕ)
    → 1002 ≤ i + fuel
    → 0 < fuel
    → IsKept others s
        (set_atomic_rounds fuel is_db is_indexed others i (run_others others (2 * i) s) r f v)
      ⊎ IsSetOnce others s
          (field_offset r f)
          v
          (set_atomic_rounds fuel is_db is_indexed others i (run_others others (2 * i) s) r f v)
unfolding set_atomic_rounds after_update
set_atomic_rounds-IsSetOnce zero is_db is_indexed others i s r f v enough some_fuel =
    absurd (omega arith)
set_atomic_rounds-IsSetOnce (suc fuel) is_db is_indexed others i s r f v enough some_fuel =
    let s0 = others (2 * i) (run_others others (2 * i) s) in
    let s1 = others (2 * i + 1) s0 in
    let round = run_others_round others i s in
    let next =
      set_atomic_rounds-IsSetOnce fuel is_db is_indexed others (i + 1) s r f v (omega arith) in
    elim (updated-cases is_db is_indexed s1 r f v (dbfetch s0 (field_offset r f))) [
      | inl (same, swapped) ↦ inr (2 * (i + 1), rw (round, swapped) refl)
      | inr (k, failed) ↦ elim (Bool-cases (k == 14)) [
        | inl changed ↦ elim (Bool-cases (ltb 1000 i)) [
          | inl last ↦ inl (2 * (i + 1), 16, rw (round, failed, changed, last) refl)
          | inr more ↦ let next = next (ground arith) in rw (failed, changed, more, sym round) next
        ]
        | inr error ↦ inl (2 * (i + 1), k, rw (round, failed, error) refl)
      ]
    ]

pub recordcheck-cases :
    (is_db : Bool) (s : State) (r f : ℕ)
    → ((k : ℕ) × (recordcheck is_db s r (pos f) ≡ negsuc k))
      ⊎ (recordcheck is_db s r (pos f) ≡ pos 0)
unfolding recordcheck
recordcheck-cases is_db s r f = grind arith

-- Whatever other threads do between its reads and writes, `wg_set_atomic_field` ends, for a field number that
-- is not negative: it sets the field's word once, at one moment among their changes, and returns 0, or it
-- changes nothing and returns an error.
pub wg_set_atomic_field-IsSetOnce :
    (is_db : Bool) (is_indexed : ℕ → Bool) (others : ℕ → State → State) (s : State) (r f v : ℕ)
    → IsKept others s (wg_set_atomic_field is_db is_indexed others s r (pos f) v)
      ⊎ IsSetOnce others s
          (field_offset r f)
          v
          (wg_set_atomic_field is_db is_indexed others s r (pos f) v)
unfolding wg_set_atomic_field run_others
wg_set_atomic_field-IsSetOnce is_db is_indexed others s r f v =
    elim (recordcheck-cases is_db s r f) [
      | inl (k, wrong) ↦ inl (0, k, rw (wg_set_atomic_field, wrong) refl)
      | inr right ↦
          rw (wg_set_atomic_field, right)
            (set_atomic_rounds-IsSetOnce 1002 is_db is_indexed others 0 s r f v (omega arith)
              (omega arith))
    ]
