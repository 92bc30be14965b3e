-- ===== src/Engine/Records/Atomic/Sum.antt =====
-- A number that is added to a field without a lock, while other threads change the state.
use wasm_cloud_computing_ben.Prelude.{
  ℕ, zero, suc, ◌+◌, ◌*◌, ◌≤◌, ◌<◌, ◌≡◌, ◌⊎◌, inl, inr, refl, sym, Bool, true, ltb, ◌==◌, Option,
  some, Bool-cases, arith,
}
use wasm_cloud_computing_ben.Prelude.Int.{ℤ, pos}
use wasm_cloud_computing_ben.Engine.{State, dbfetch, dbstore}
use wasm_cloud_computing_ben.Engine.Values.{
  issmallint, fits_smallint, encode_smallint, wg_decode_int,
}
use wasm_cloud_computing_ben.Engine.Records.{field_offset}
use wasm_cloud_computing_ben.Engine.Records.Atomic.{
  after_update, sum_of, add_int_rounds, wg_add_int_atomic_field,
}
use wasm_cloud_computing_ben.Engine.Records.Atomic.Linear.{
  run_others, run_others_round, run_others_half, updated-cases, recordcheck-cases, IsKept,
}

-- The word at `a` held a small integer, and its sum with `v` was set, at one moment among the other
-- threads' changes.
abbrev pub IsAddedOnce : Bool → (ℕ → State → State) → State → ℕ → ℕ → Option (ℤ × State) → Type 0
IsAddedOnce is_db others s a v result =
    (n : ℕ) × (issmallint (dbfetch (run_others others n s) a) ≡ true)
    × (fits_smallint (sum_of is_db (run_others others n s) (dbfetch (run_others others n s) a) v)
        ≡ true)
    × (result
        ≡ some (
          pos 0,
          dbstore (run_others others n s) a (
              encode_smallint
                (sum_of is_db (run_others others n s) (dbfetch (run_others others n s) a) v)),
        ))

sum_of_small :
    (is_db : Bool) (s t : State) (old v : ℕ)
    → issmallint old ≡ true
    → sum_of is_db s old v ≡ sum_of is_db t old v
unfolding sum_of wg_decode_int
sum_of_small is_db s t old v small = ground arith

add_int_rounds-IsAddedOnce :
    (fuel : ℕ) (is_db : Bool) (is_indexed : ℕ → Bool) (others : ℕ → State → State) (i : ℕ)
    (s : State) (r f v : ℕ)
    → 1002 ≤ i + fuel
    → 0 < fuel
    → IsKept others s
        (add_int_rounds fuel is_db is_indexed others i (run_others others (2 * i) s) r f v)
      ⊎ IsAddedOnce is_db others s
          (field_offset r f)
          v
          (add_int_rounds fuel is_db is_indexed others i (run_others others (2 * i) s) r f v)
unfolding add_int_rounds after_update
add_int_rounds-IsAddedOnce zero is_db is_indexed others i s r f v enough some_fuel =
    absurd (omega arith)
add_int_rounds-IsAddedOnce (suc fuel) is_db is_indexed others i s r f v enough some_fuel =
    let s0 = others (2 * i) (run_others others (2 * i) s) in
    let s1 = others (2 * i + 1) s0 in
    let old = dbfetch s0 (field_offset r f) in
    let sum = sum_of is_db s0 old v in
    let round = run_others_round others i s in
    let next =
      add_int_rounds-IsAddedOnce fuel is_db is_indexed others (i + 1) s r f v (omega arith) in
    elim (Bool-cases (issmallint old)) [
      | inr large ↦ inl (1 + 2 * i, 10, rw (run_others_half others i s, large) refl)
      | inl small ↦ elim (Bool-cases (fits_smallint sum)) [
        | inr too_large ↦
            inl (1 + 2 * i, 15, rw (run_others_half others i s, small, too_large) refl)
        | inl fits ↦ elim (updated-cases is_db is_indexed s1 r f (encode_smallint sum) old) [
          | inl (same, swapped) ↦ inr (
            2 * (i + 1),
            rw (round, same) small,
            rw (round, same, sum_of_small is_db s1 s0 old v small) fits,
            rw (small, fits, swapped, round, same, sum_of_small is_db s1 s0 old v small) refl,
          )
          | inr (k, failed) ↦ elim (Bool-cases (k == 14)) [
            | inl changed ↦ elim (Bool-cases (ltb 1000 i)) [
              | inl last ↦
                  inl (2 * (i + 1), 16, rw (small, fits, round, failed, changed, last) refl)
              | inr more ↦
                  let next = next (ground arith) in
                  rw (small, fits, failed, changed, more, sym round) next
            ]
            | inr error ↦ inl (2 * (i + 1), k, rw (small, fits, round, failed, error) refl)
          ]
        ]
      ]
    ]

-- Whatever other threads do between its reads and writes, `wg_add_int_atomic_field` ends, for a field number
-- that is not negative: it returns 0 and sets the field's word once, at one moment among their changes, to
-- the sum with the small integer that the word held at that moment, which is small again; or it changes
-- nothing and returns an error.
pub wg_add_int_atomic_field-IsAddedOnce :
    (is_db : Bool) (is_indexed : ℕ → Bool) (others : ℕ → State → State) (s : State) (r f v : ℕ)
    → IsKept others s (wg_add_int_atomic_field is_db is_indexed others s r (pos f) v)
      ⊎ IsAddedOnce is_db others s
          (field_offset r f)
          v
          (wg_add_int_atomic_field is_db is_indexed others s r (pos f) v)
unfolding wg_add_int_atomic_field run_others
wg_add_int_atomic_field-IsAddedOnce is_db is_indexed others s r f v =
    elim (recordcheck-cases is_db s r f) [
      | inl (k, wrong) ↦ inl (0, k, rw (wg_add_int_atomic_field, wrong) refl)
      | inr right ↦
          rw (wg_add_int_atomic_field, right)
            (add_int_rounds-IsAddedOnce 1002 is_db is_indexed others 0 s r f v (omega arith)
              (omega arith))
    ]
