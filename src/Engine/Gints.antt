-- ===== src/Engine/Gints.antt =====
-- `wg_alloc_gints` of dballoc.c: an object of a number of words, from a list of free objects, from the
-- designated victim, or from a new subarea.
pub mod Victim
pub mod Termination
pub mod Header
use wasm_cloud_computing_ben.Prelude.{
  ℕ, zero, suc, ◌+◌, ◌-◌, ◌*◌, ◌%◌, ◌^◌, ◌≡◌, ◌⊎◌, inl, inr, refl, if◌then◌else◌, ltb, leb, ◌==◌,
  ◌&&◌, not, Option, none, some, min,
}
use wasm_cloud_computing_ben.Prelude.Int.{pos, negsuc}
use wasm_cloud_computing_ben.Engine.{
  State, dbfetch, bucket, getfreeobjectsize, used_bytes, exactbuckets_nr, varbuckets_nr,
}
use wasm_cloud_computing_ben.Engine.Buckets.{wg_freebuckets_index}
use wasm_cloud_computing_ben.Engine.Varlen.{
  made, no_bucket, unending, extend_varlen_area, take_exact, take_split, first_to_split,
  first_that_fits, take_victim,
}

-- The offset, or 0 for a failure; a bucket index out of the array; a loop that does not end, or more
-- recursive calls than the fuel.
pub data Allocated : Type 0 where
  returned : ℕ → State → Allocated
  outside unfinished : Allocated

pub Allocated-cases :
    (x : Allocated)
    → ((r : ℕ) × (s : State) × (x ≡ returned r s)) ⊎ ((x ≡ outside) ⊎ (x ≡ unfinished))
Allocated-cases (returned r s) = inl (r, s, refl)
Allocated-cases outside = inr (inl refl)
Allocated-cases unfinished = inr (inr refl)

-- The first exact bucket, of a number of buckets, with an object that can be split.
unfoldable pub split_exact : State → ℕ → ℕ → ℕ → Option (ℕ × State)
split_exact s rounds usedbytes wantedbytes =
    elim (first_to_split (min rounds (exactbuckets_nr - (usedbytes + 1))) s usedbytes
      (usedbytes + 1)) [ none ↦ none | some i ↦ some (take_split s i usedbytes wantedbytes) ]

-- The victim, and after it all exact buckets with longer objects.
unfoldable pub victim_or_split : State → ℕ → ℕ → Option (ℕ × State)
victim_or_split s usedbytes wantedbytes = elim (take_victim s usedbytes wantedbytes) [
  | some r ↦ some r
  | none ↦ split_exact s exactbuckets_nr usedbytes wantedbytes
]

-- The exact bucket of the size, the three next to it, the victim, and all exact buckets.
unfoldable pub from_exact : State → ℕ → ℕ → Option (ℕ × State)
from_exact s usedbytes wantedbytes =
    if ltb usedbytes exactbuckets_nr && not (bucket s usedbytes == 0)
    then some (take_exact s usedbytes usedbytes wantedbytes)
    else elim (split_exact s 3 usedbytes wantedbytes) [
      | some r ↦ some r
      | none ↦ victim_or_split s usedbytes wantedbytes
    ]

-- The bucket that was found by `first_that_fits`.
unfoldable pub take_fitting : State → ℕ → ℕ → ℕ → ℕ × State
take_fitting s i usedbytes wantedbytes =
    if getfreeobjectsize (dbfetch s (bucket s i)) == usedbytes
    then take_exact s i usedbytes wantedbytes
    else take_split s i usedbytes wantedbytes

-- The search in the buckets from index `i` on.
unfoldable pub from_var : State → ℕ → ℕ → ℕ → Option (ℕ × State)
from_var s i usedbytes wantedbytes =
    elim (first_that_fits (exactbuckets_nr + varbuckets_nr - i) s usedbytes i) [
      | none ↦ none
      | some j ↦ some (take_fitting s j usedbytes wantedbytes)
    ]

-- A product from 2 ^ 31 on is a negative `gint`. The fuel bounds the recursive calls, each of which
-- follows the making of a subarea; there are at most 64 subareas.
unfoldable pub wg_alloc_gints : ℕ → State → ℕ → Allocated
wg_alloc_gints zero s nr = unfinished
wg_alloc_gints (suc fuel) s nr =
    let wantedbytes = nr * 4 % 2 ^ 32 in
    let usedbytes = used_bytes wantedbytes in
    let extended = extend_varlen_area s usedbytes in
    let again : Allocated = elim extended [
      | no_bucket ↦ outside
      | unending ↦ unfinished
      | made size s' ↦ if size == 0 then returned 0 s' else wg_alloc_gints fuel s' nr
    ] in
    if leb (2 ^ 31) wantedbytes then returned 0 s else elim (from_exact s usedbytes wantedbytes) [
      | some (res, s') ↦ returned res s'
      | none ↦ elim (wg_freebuckets_index usedbytes) [
        | negsuc n ↦ outside
        | pos i ↦ elim (from_var s i usedbytes wantedbytes) [
          | some (res, s') ↦ returned res s'
          | none ↦ again
        ]
      ]
    ]
