-- ===== src/Engine/Fixlen/Extend.antt =====
-- `extend_fixedlen_area`: a new subarea for objects of fixed length.
use wasm_cloud_computing_ben.Prelude.{
  ℕ, zero, suc, ◌+◌, ◌/◌, ◌≤◌, ◌<◌, ◌≡◌, ◌⊎◌, inl, inr, refl, leb, ◌==◌, false, ap, Bool-cases,
  arith,
}
use wasm_cloud_computing_ben.Engine.{State}
use wasm_cloud_computing_ben.Engine.Chunks.{init_db_subarea}
use wasm_cloud_computing_ben.Engine.Chunks.Disjoint.{IsSegment, MadeSubarea, init_db_subarea_sound}
use wasm_cloud_computing_ben.Engine.Fixlen.{
  doubled, try_sizes, extend_fixedlen_area, make_subarea_freelist,
}

-- No subarea was made, and nothing changed; or one of the size was made.
abbrev Tried : State → ℕ → ℕ × State → Type 0
Tried s index (made, s') = ((made ≡ 0) × (s' ≡ s)) ⊎ ((8192 ≤ made) × MadeSubarea s index made s')

-- The fuel that `extend_fixedlen_area` gives to the loop is enough: more of it changes nothing.
try_sizes_enough :
    (fuel : ℕ) (s : State) (index newsize : ℕ)
    → newsize / 4096 ≤ fuel
    → try_sizes (suc fuel) s index newsize ≡ try_sizes fuel s index newsize
unfolding try_sizes
try_sizes_enough zero s index newsize h = ground arith
try_sizes_enough (suc fuel) s index newsize h =
    ground (arith, try_sizes_enough fuel (init_db_subarea s index newsize).1 index (newsize / 2))

try_sizes-Tried :
    (fuel : ℕ) (s : State) (index newsize : ℕ)
    → IsSegment s.segment
    → s.segment.free + newsize < 2147483641
    → Tried s index (try_sizes fuel s index newsize)
unfolding try_sizes
try_sizes-Tried zero s index newsize w low = inl (refl, refl)
try_sizes-Tried (suc fuel) s index newsize w low = elim (Bool-cases (leb 8192 newsize)) [
  | inr small ↦ rw small (inl (refl, refl))
  | inl large ↦ elim (init_db_subarea_sound s index newsize w low) [
    | inl (few, _) ↦ absurd (ground arith)
    | inr (inl (_, failed)) ↦
        rw (large, ap (λ p. p.0) failed, ap (λ p. p.1) failed)
          (try_sizes-Tried fuel s index (newsize / 2) w (omega arith))
    | inr (inr (enough, done, made)) ↦ rw (large, done) (inr (enough, made))
  ]
]

-- With a well-formed segment, an unused subarea header and twice the last size below 2 ^ 31 - 7, `extend_fixedlen_area` answers 0 and changes
-- nothing, or it answers the size of at least 8192 bytes of a subarea that it made and filled with a
-- free list; the area's free list is that one.
extend_fixedlen_area_sound :
    (s : State)
    → IsSegment s.segment
    → s.area.last_subarea_index + 1 < 64
    → s.segment.free + doubled (s.area.subarea_array s.area.last_subarea_index).size < 2147483641
    → (extend_fixedlen_area s ≡ (0, s))
      ⊎ (made : ℕ) × (t : State) × (8192 ≤ made)
        × MadeSubarea s (s.area.last_subarea_index + 1) made t
        × (extend_fixedlen_area s ≡ (made, make_subarea_freelist t (s.area.last_subarea_index + 1)))
unfolding extend_fixedlen_area
extend_fixedlen_area_sound s w room low =
    let index = s.area.last_subarea_index + 1 in
    let newsize = doubled (s.area.subarea_array s.area.last_subarea_index).size in
    let (made, t) = try_sizes (newsize / 4096) s index newsize in
    let in_array : leb 64 index ≡ false = ground arith in
    elim (try_sizes-Tried (newsize / 4096) s index newsize w low) [
      | inl (failed, same) ↦ inl (rw (in_array, failed, same) refl)
      | inr (enough, done) ↦
          let nonzero : (made == 0) ≡ false = ground arith in
          inr (made, t, enough, done, rw (in_array, nonzero) refl)
    ]
