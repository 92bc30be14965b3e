-- ===== src/Engine/Gints/Victim.antt =====
-- An allocation that the designated victim serves.
use wasm_cloud_computing_ben.Prelude.{
  ℕ, zero, suc, ◌+◌, ◌-◌, ◌*◌, ◌%◌, ◌^◌, ◌≤◌, ◌<◌, ◌≡◌, ◌≢◌, refl, ◌==◌, none, some, not, ltb, leb,
  ◌&&◌, false, min, Bool-cases, inl, inr, arith,
}
use wasm_cloud_computing_ben.Engine.{
  used_bytes, State, dbfetch, dbstore, store_word, bucket, bucket_addr, set_bucket,
  makespecialusedobjectsize, unmarked, makeusedobjectsizeprevused,
}
use wasm_cloud_computing_ben.Engine.Buckets.{mark_victim, set_victim}
use wasm_cloud_computing_ben.Engine.Varlen.{take_victim, first_to_split}
use wasm_cloud_computing_ben.Engine.Gints.{
  returned, split_exact, victim_or_split, from_exact, wg_alloc_gints,
}

-- The victim lies behind the buckets.
abbrev pub IsBehind : State → Type 0
IsBehind s = s.area.freebuckets + 1160 ≤ bucket s 288

-- The state after the victim gave its first `used` bytes.
unfoldable pub shortened : State → ℕ → ℕ → State
shortened s used wanted =
    let res = bucket s 288 in
    let rest = bucket s 289 - used in
    dbstore (set_victim (mark_victim s (res + used) rest) (res + used) rest) res
      (makeusedobjectsizeprevused wanted)

take_victim-shortened :
    (s : State) (used wanted : ℕ)
    → bucket s 288 ≢ 0
    → used + 16 ≤ bucket s 289
    → take_victim s used wanted ≡ some (bucket s 288, shortened s used wanted)
unfolding take_victim shortened
take_victim-shortened s used wanted nonzero fits = ground arith

-- Every word that the allocation writes.
pub shortened_words :
    (s : State) (used wanted : ℕ)
    → IsBehind s
    → 16 ≤ used
    → (bucket (shortened s used wanted) 288 ≡ bucket s 288 + used)
      × (bucket (shortened s used wanted) 289 ≡ bucket s 289 - used)
      × (dbfetch (shortened s used wanted) (bucket s 288) ≡ unmarked wanted)
      × (dbfetch (shortened s used wanted) (bucket s 288 + used)
          ≡ makespecialusedobjectsize (bucket s 289 - used))
unfolding shortened mark_victim set_victim set_bucket dbstore dbfetch bucket bucket_addr store_word
    makeusedobjectsizeprevused
shortened_words s used wanted behind some_bytes = ground arith

-- No list has a free object.
abbrev pub AreEmpty : State → Type 0
AreEmpty s = (i : ℕ) → i < 288 → bucket s i ≡ 0

first_to_split-none :
    (s : State) (used rounds i : ℕ)
    → AreEmpty s
    → i + rounds ≤ 288
    → first_to_split rounds s used i ≡ none
unfolding first_to_split
first_to_split-none s used zero i empty inside = refl
first_to_split-none s used (suc rounds) i empty inside =
    let this = empty i (omega arith) in
    rw this (first_to_split-none s used rounds (i + 1) empty (omega arith))

first_to_split_zero : (s : State) (used i : ℕ) → first_to_split 0 s used i ≡ none
unfolding first_to_split
first_to_split_zero s used i = refl

split_exact-none :
    (s : State) (rounds used wanted : ℕ) → AreEmpty s → split_exact s rounds used wanted ≡ none
unfolding split_exact
split_exact-none s rounds used wanted empty = elim (Bool-cases (ltb used 255)) [
  | inl near ↦
      rw
        (
          split_exact,
          first_to_split-none s used (min rounds (256 - (used + 1))) (used + 1) empty
              (ground arith),
        )
        refl
  | inr far ↦
      let no_round : min rounds (256 - (used + 1)) ≡ 0 = ground arith in
      rw (split_exact, no_round, first_to_split_zero s used (used + 1)) refl
]

from_exact-victim :
    (s : State) (used wanted : ℕ)
    → AreEmpty s
    → bucket s 288 ≢ 0
    → used + 16 ≤ bucket s 289
    → from_exact s used wanted ≡ some (bucket s 288, shortened s used wanted)
unfolding from_exact victim_or_split
from_exact-victim s used wanted empty nonzero fits =
    let no_exact : (ltb used 256 && not (bucket s used == 0)) ≡ false =
      elim (Bool-cases (ltb used 256)) [
        | inl near ↦ let this = empty used (ground arith) in rw (near, this) refl
        | inr far ↦ rw far refl
      ] in
    rw
      (
        no_exact,
        split_exact-none s 3 used wanted empty,
        victim_or_split,
        take_victim-shortened s used wanted nonzero fits,
      )
      refl

-- In an area without free objects in lists, an object is taken from the victim.
pub wg_alloc_gints-victim :
    (fuel : ℕ) (s : State) (nr : ℕ)
    → AreEmpty s
    → bucket s 288 ≢ 0
    → 4 * nr < 2 ^ 31
    → used_bytes (4 * nr) + 16 ≤ bucket s 289
    → wg_alloc_gints (suc fuel) s nr
      ≡ returned (bucket s 288) (shortened s (used_bytes (4 * nr)) (4 * nr))
unfolding wg_alloc_gints
wg_alloc_gints-victim fuel s nr empty nonzero small fits =
    let exact : nr * 4 % 2 ^ 32 ≡ 4 * nr = omega arith in
    let plus : leb (2 ^ 31) (4 * nr) ≡ false = ground arith in
    rw (exact, plus, from_exact-victim s (used_bytes (4 * nr)) (4 * nr) empty nonzero fits) refl
