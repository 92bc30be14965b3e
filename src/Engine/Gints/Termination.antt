-- ===== src/Engine/Gints/Termination.antt =====
-- `wg_alloc_gints` calls itself only after it made a subarea, and there are 64 of them.
use wasm_cloud_computing_ben.Prelude.{
  ◌⊎◌, leb, ltb, ℕ, zero, suc, ◌+◌, ◌*◌, ◌/◌, ◌%◌, ◌^◌, ◌≤◌, ◌<◌, ◌≡◌, ◌≢◌, inl, inr, refl, ap, sym,
  ◌∙◌, some, Bool-cases, ◌==◌, arith,
}
use native.Mathlib.Nat.{pow-suc, mul_assoc, mul_comm}
use wasm_cloud_computing_ben.Prelude.Int.{pos}
use wasm_cloud_computing_ben.Engine.{State, dbstore, set_bucket, used_bytes}
use wasm_cloud_computing_ben.Engine.Chunks.{init_db_subarea, set_subarea, subarea_at}
use wasm_cloud_computing_ben.Engine.Buckets.{
  mark_free, set_prev, link_object, mark_victim, set_victim,
}
use wasm_cloud_computing_ben.Engine.Varlen.{
  try_from, grow, extend_by, Extended, made, no_bucket, unending, min_subarea, store_victim,
  store_marker, store_freespace, init_subarea_freespace, extend_varlen_area,
}
use wasm_cloud_computing_ben.Engine.Gints.{unfinished, wg_alloc_gints}

set_prev-area : (s : State) (object prev : ℕ) → (set_prev s object prev).area ≡ s.area
unfolding set_prev dbstore
set_prev-area s object prev = ground arith

store_victim-area : (s t : State) → store_victim s ≡ some t → t.area ≡ s.area
unfolding store_victim link_object set_bucket dbstore mark_free
store_victim-area s t h = grind (arith, set_prev-area)

init_subarea_freespace-area :
    (s t : State) (index : ℕ) → init_subarea_freespace s index ≡ some t → t.area ≡ s.area
unfolding init_subarea_freespace store_freespace store_marker mark_victim set_victim set_bucket
    dbstore
init_subarea_freespace-area s t index h = grind (arith, store_victim-area)

init_db_subarea-made :
    (s : State) (index n : ℕ)
    → (init_db_subarea s index n).0 ≡ pos 0
    → ((init_db_subarea s index n).1.area.last_subarea_index ≡ index)
      × (((init_db_subarea s index n).1.area.subarea_array index).size ≡ n)
unfolding init_db_subarea set_subarea subarea_at
init_db_subarea-made s index n h = ground arith

-- What the `while` loop made is the last subarea, with a size between the least and the first.
try_from-made :
    (fuel : ℕ) (s : State) (index minsize newsize : ℕ)
    → (try_from fuel s index minsize newsize).0 ≢ 0
    → ((try_from fuel s index minsize newsize).1.area.last_subarea_index ≡ index)
      × (((try_from fuel s index minsize newsize).1.area.subarea_array index).size
          ≡ (try_from fuel s index minsize newsize).0)
      × ((try_from fuel s index minsize newsize).0 ≤ newsize)
unfolding try_from
try_from-made zero s index minsize newsize h = absurd (h refl)
try_from-made (suc fuel) s index minsize newsize h = ground (
  arith,
  init_db_subarea-made s index newsize,
  try_from-made fuel (init_db_subarea s index newsize).1 index minsize (newsize / 2),
)

double_power : (size n : ℕ) → size * 2 ^ suc n ≡ size * 2 * 2 ^ n
double_power size n =
    ap (λ p. size * p) (pow-suc 2 n ∙ mul_comm (2 ^ n) 2) ∙ sym (mul_assoc size 2 (2 ^ n))

grow_on :
    (fuel size minsize n : ℕ)
    → size * 2 < 2 ^ 31
    → size * 2 < minsize
    → grow fuel (size * 2) minsize ≡ some n
    → grow (suc fuel) size minsize ≡ some n
unfolding grow
grow_on fuel size minsize n small less rest =
    let double : size * 2 % 2 ^ 32 ≡ size * 2 = omega arith in rw double (ground arith)

-- The doubling of a size other than 0 ends.
grow-ends :
    (fuel size minsize : ℕ)
    → 0 < size
    → size < 2 ^ 31
    → 2 ^ 31 ≤ size * 2 ^ fuel
    → (n : ℕ) × (grow fuel size minsize ≡ some n) × (n < 2 ^ 31)
unfolding grow
grow-ends zero size minsize positive small enough = absurd (omega arith)
grow-ends (suc fuel) size minsize positive small enough =
    let double : size * 2 % 2 ^ 32 ≡ size * 2 = omega arith in
    elim (Bool-cases (leb (2 ^ 31) (size * 2))) [
      | inl over ↦ (0, rw (double, over) refl, omega arith)
      | inr fits ↦ elim (Bool-cases (ltb (size * 2) minsize)) [
        | inr ends ↦ (size * 2, rw (double, fits, ends) refl, ground arith)
        | inl less ↦
            let e : size * 2 ^ suc fuel ≡ size * 2 * 2 ^ fuel = double_power size fuel in
            let (n, grown, bound) =
              grow-ends fuel (size * 2) minsize (omega arith) (ground arith) (rw (← e) enough) in
            (n, grow_on fuel size minsize n (ground arith) (ground arith) grown, bound)
      ]
    ]

-- The last subarea has a size, and it is a positive `gint`.
abbrev pub IsSized : State → Type 0
IsSized s =
    let size = (s.area.subarea_array s.area.last_subarea_index).size in (0 < size) × (size < 2 ^ 31)

extend_by-IsSized :
    (s t : State) (index minsize newsize size : ℕ)
    → newsize < 2 ^ 31
    → extend_by s index minsize newsize ≡ made size t
    → size ≢ 0
    → (t.area.last_subarea_index ≡ index) × IsSized t
unfolding extend_by
extend_by-IsSized s t index minsize newsize size small h nonzero =
    grind (arith, init_subarea_freespace-area, try_from-made)

-- Making a subarea ends, and one that is made is the last, with a size.
abbrev Ends : State → Extended → Type 0
Ends s e =
    (e ≡ no_bucket)
    ⊎ (t : State) × (size : ℕ) × (e ≡ made size t)
      × (size ≢ 0
          → (s.area.last_subarea_index + 1 < 64)
            × (t.area.last_subarea_index ≡ s.area.last_subarea_index + 1)
            × IsSized t)

extend_by-Ends :
    (s : State) (minsize newsize : ℕ)
    → s.area.last_subarea_index + 1 < 64
    → newsize < 2 ^ 31
    → (e : Extended) → extend_by s (s.area.last_subarea_index + 1) minsize newsize ≡ e
    → Ends s e
unfolding extend_by
extend_by-Ends s minsize newsize room small no_bucket h = inl refl
extend_by-Ends s minsize newsize room small unending h = absurd (ground arith)
extend_by-Ends s minsize newsize room small (made size t) h = inr (
  t,
  size,
  refl,
  λ nonzero.
      let (last, sized) =
        extend_by-IsSized s t (s.area.last_subarea_index + 1) minsize newsize size small h
          nonzero in
      (room, last, sized),
)

extend_varlen_area-Ends :
    (s : State) (minbytes : ℕ) → IsSized s → Ends s (extend_varlen_area s minbytes)
unfolding extend_varlen_area
extend_varlen_area-Ends s minbytes (positive, small) =
    let minsize = min_subarea minbytes in
    let size = (s.area.subarea_array s.area.last_subarea_index).size in
    elim (Bool-cases (leb 64 (s.area.last_subarea_index + 1))) [
      | inl full ↦ rw full (inr (s, 0, refl, λ h. absurd (h refl)))
      | inr room ↦ elim (Bool-cases (leb (2 ^ 31) minsize)) [
        | inl over ↦ rw (room, over) (inr (s, 0, refl, λ h. absurd (h refl)))
        | inr fits ↦
            let (newsize, grown, bound) = grow-ends 32 size minsize positive small (omega arith) in
            rw (room, fits, grown)
              (extend_by-Ends s minsize newsize (ground arith) bound
                (extend_by s (s.area.last_subarea_index + 1) minsize newsize) refl)
      ]
    ]

-- With more fuel than there are subareas left, and at least one, and a last subarea whose size is a positive
-- `gint`, `wg_alloc_gints` ends: it returns an offset or 0, or uses a bucket index out of the array.
pub wg_alloc_gints_ends :
    (fuel : ℕ) (s : State) (nr : ℕ)
    → 64 ≤ s.area.last_subarea_index + fuel
    → 0 < fuel
    → IsSized s
    → wg_alloc_gints fuel s nr ≢ unfinished
unfolding wg_alloc_gints
wg_alloc_gints_ends zero s nr enough some_fuel sized = absurd (omega arith)
wg_alloc_gints_ends (suc fuel) s nr enough some_fuel sized =
    elim (extend_varlen_area-Ends s (used_bytes (nr * 4 % 2 ^ 32)) sized) [
      | inl failed ↦ ground arith
      | inr (t, size, extended, last) ↦ elim (Bool-cases (size == 0)) [
        | inl nothing ↦ ground arith
        | inr something ↦
            let (room, index, sized') = last (ground arith) in
            let next = wg_alloc_gints_ends fuel t nr (omega arith) (omega arith) sized' in
            ground arith
      ]
    ]
