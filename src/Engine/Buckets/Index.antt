-- ===== src/Engine/Buckets/Index.antt =====
-- `wg_freebuckets_index`: which sizes a bucket holds.
use wasm_cloud_computing_ben.Prelude.{
  ℕ, zero, suc, ◌+◌, ◌*◌, ◌%◌, ◌^◌, ◌≤◌, ◌<◌, ◌≡◌, ◌⊎◌, inl, inr, ltb, Bool-cases, refl, ap, arith,
}
use wasm_cloud_computing_ben.Prelude.Int.{ℤ, pos, neg}
use wasm_cloud_computing_ben.Engine.Buckets.{below_cursize, index_loop, wg_freebuckets_index}

-- The least size in the bucket with number 256 + i.
unfoldable pub least_size : ℕ → ℕ
least_size zero = 256
least_size (suc i) = least_size i * 2

-- The number `index` is that of a bucket of larger sizes, which holds the size.
abbrev pub HoldsSize : ℤ → ℕ → Type 0
HoldsSize index size =
    (j : ℕ) × (index ≡ pos (256 + j)) × (least_size j ≤ size) × (size < least_size (suc j))

index_loop-HoldsSize :
    (rounds i end size : ℕ)
    → end ≡ i + rounds
    → least_size i ≤ size
    → size < least_size end
    → size < 2 ^ 30
    → HoldsSize (index_loop rounds size (least_size (suc i)) i) size
unfolding index_loop below_cursize least_size
index_loop-HoldsSize zero i end size last low high small =
    let same : end ≡ i = omega arith in absurd (omega (arith, ap least_size same))
index_loop-HoldsSize (suc rounds) i end size last low high small =
    elim (Bool-cases (below_cursize size (least_size i * 2))) [
      | inl holds ↦ rw holds (i, refl, low, ground arith)
      | inr larger ↦
          let above : least_size i * 2 ≤ size = ground arith in
          let exact : least_size i * 2 * 2 % 2 ^ 32 ≡ least_size i * 2 * 2 = omega arith in
          let next : i + 1 ≡ suc i = omega arith in
          rw (larger, exact, next)
            (index_loop-HoldsSize rounds (suc i) end size (omega arith) above high small)
    ]

-- A size below 256 has the bucket of its own number. A size from there to 2 ^ 30 has a bucket that holds
-- the sizes from a power of two to its double, of which it is one.
wg_freebuckets_index-HoldsSize :
    (size : ℕ)
    → size < 2 ^ 30
    → ((size < 256) × (wg_freebuckets_index size ≡ pos size))
      ⊎ (256 ≤ size) × HoldsSize (wg_freebuckets_index size) size
unfolding wg_freebuckets_index least_size
wg_freebuckets_index-HoldsSize size small = elim (Bool-cases (ltb size 256)) [
  | inl exact ↦ inl (ground arith, rw exact refl)
  | inr longer ↦ inr (
    ground arith,
    rw longer (index_loop-HoldsSize 32 0 32 size refl (ground arith) (omega arith) small),
  )
]

-- A size from 2 ^ 30 on has no bucket: the doubled bound becomes negative and then zero.
wg_freebuckets_index_none : (size : ℕ) → 2 ^ 30 ≤ size → wg_freebuckets_index size ≡ neg 1
unfolding wg_freebuckets_index index_loop below_cursize
wg_freebuckets_index_none size h = ground arith
