-- ===== src/Engine/Fixlen/Freelist.antt =====
-- The free list of fixed-length objects is a stack.
use wasm_cloud_computing_ben.Prelude.{
  ℕ, zero, suc, ◌+◌, ◌-◌, ◌*◌, ◌≤◌, ◌<◌, ◌≡◌, ◌≢◌, refl, List, [], ◌∷◌, All, ◌∙◌, arith,
}
use wasm_cloud_computing_ben.Engine.{State, dbfetch, dbstore, store_word}
use wasm_cloud_computing_ben.Engine.Fixlen.{
  freelist_loop, make_subarea_freelist, wg_alloc_fixlen_object, wg_free_fixlen_object, set_freelist,
  take_first,
}

-- The list that begins at an offset: the objects on it, in order, are linked by their first words.
unfoldable pub IsLinked : (ℕ → ℕ) → ℕ → List ℕ → Type 0
IsLinked memory offset [] = offset ≡ 0
IsLinked memory offset (x ∷ xs) = (offset ≡ x) × (x ≢ 0) × IsLinked memory (memory x) xs

-- The abstract view of the area: the objects on its free list.
abbrev pub HasFree : State → List ℕ → Type 0
HasFree s xs = IsLinked s.segment.memory s.area.freelist xs

-- A store outside of the objects of a list leaves the list.
pub IsLinked-store_word :
    (memory : ℕ → ℕ) (offset value start : ℕ) (xs : List ℕ)
    → All (λ x. x ≢ offset) xs
    → IsLinked memory start xs
    → IsLinked (store_word memory offset value) start xs
unfolding IsLinked store_word
IsLinked-store_word memory offset value start [] apart linked = linked
IsLinked-store_word memory offset value start (x ∷ xs) (a, apart) (at, here, linked) =
    (at, here, ground (arith, IsLinked-store_word memory offset value (memory x) xs))

-- `n` objects of a length, one behind the other.
unfoldable pub objects : ℕ → ℕ → ℕ → List ℕ
objects zero objlength i = []
objects (suc n) objlength i = i ∷ objects n objlength (i + objlength)

-- The loop does not write below its first object.
freelist_loop_below :
    (fuel : ℕ) (s : State) (end objlength i a : ℕ)
    → a < i
    → (freelist_loop fuel s end objlength i).segment.memory a ≡ s.segment.memory a
unfolding freelist_loop dbstore store_word
freelist_loop_below zero s end objlength i a h = ground arith
freelist_loop_below (suc fuel) s end objlength i a h = ground (
  arith,
  freelist_loop_below fuel (dbstore s i (i + objlength)) end objlength (i + objlength) a
      (omega arith),
)

pub store_word_same :
    (memory : ℕ → ℕ) (offset value : ℕ) → store_word memory offset value offset ≡ value
unfolding store_word
store_word_same memory offset value = ground arith

freelist_loop_next :
    (fuel : ℕ) (s : State) (end objlength i : ℕ)
    → i + 2 * objlength ≤ end
    → freelist_loop (suc fuel) s end objlength i
      ≡ freelist_loop fuel (dbstore s i (i + objlength)) end objlength (i + objlength)
unfolding freelist_loop
freelist_loop_next fuel s end objlength i h = ground arith

freelist_loop_last :
    (fuel : ℕ) (s : State) (end objlength i : ℕ)
    → end < i + 2 * objlength
    → freelist_loop fuel s end objlength i ≡ dbstore s i 0
unfolding freelist_loop
freelist_loop_last zero s end objlength i h = refl
freelist_loop_last (suc fuel) s end objlength i h = ground arith

IsLinked-first :
    (memory : ℕ → ℕ) (x y : ℕ) (xs : List ℕ)
    → memory x ≡ y
    → x ≢ 0
    → IsLinked memory y xs
    → IsLinked memory x (x ∷ xs)
unfolding IsLinked
IsLinked-first memory x y xs next nonzero linked = rw next (refl, nonzero, linked)

IsLinked-only : (memory : ℕ → ℕ) (x : ℕ) → memory x ≡ 0 → x ≢ 0 → IsLinked memory x (x ∷ [])
unfolding IsLinked
IsLinked-only memory x next nonzero = (refl, nonzero, next)

freelist_loop-IsLinked :
    (n fuel : ℕ) (s : State) (end objlength i : ℕ)
    → n ≤ fuel
    → 0 < i
    → 0 < objlength
    → i + (suc n) * objlength ≤ end
    → end < i + (suc n) * objlength + objlength
    → IsLinked (freelist_loop fuel s end objlength i).segment.memory i (objects (suc n) objlength i)
unfolding objects dbstore
freelist_loop-IsLinked zero fuel s end objlength i enough nonzero some_length fits last =
    rw (freelist_loop_last fuel s end objlength i (omega arith))
      (IsLinked-only _ i (store_word_same s.segment.memory i 0) (omega arith))
freelist_loop-IsLinked (suc n) zero s end objlength i enough nonzero some_length fits last =
    absurd (omega arith)
freelist_loop-IsLinked (suc n) (suc fuel) s end objlength i enough nonzero some_length fits last =
    let next = dbstore s i (i + objlength) in
    let rest =
      freelist_loop-IsLinked n fuel next end objlength (i + objlength) (omega arith) (omega arith)
        some_length (omega arith) (omega arith) in
    let first =
      freelist_loop_below fuel next end objlength (i + objlength) i (omega arith)
      ∙ store_word_same s.segment.memory i (i + objlength) in
    rw (freelist_loop_next fuel s end objlength i (omega arith)) (
      IsLinked-first _ i (i + objlength) (objects (suc n) objlength (i + objlength)) first
        (omega arith) rest)

-- Freeing an object that is not on the list pushes it.
pub wg_free_fixlen_object-HasFree :
    (s : State) (offset : ℕ) (xs : List ℕ)
    → HasFree s xs
    → offset ≢ 0
    → All (λ x. x ≢ offset) xs
    → HasFree (wg_free_fixlen_object s offset) (offset ∷ xs)
unfolding wg_free_fixlen_object set_freelist dbstore IsLinked
wg_free_fixlen_object-HasFree s offset xs free nonzero apart =
    let kept =
      IsLinked-store_word s.segment.memory offset s.area.freelist s.area.freelist xs apart free in
    (refl, nonzero, rw (store_word_same s.segment.memory offset s.area.freelist) kept)

-- Allocating takes the first object of the list and leaves the memory.
pub wg_alloc_fixlen_object-HasFree :
    (s : State) (x : ℕ) (xs : List ℕ)
    → HasFree s (x ∷ xs)
    → ((wg_alloc_fixlen_object s).0 ≡ x) × HasFree (wg_alloc_fixlen_object s).1 xs
unfolding wg_alloc_fixlen_object take_first set_freelist dbfetch IsLinked
wg_alloc_fixlen_object-HasFree s x xs (at, nonzero, linked) = ground arith

-- A fresh subarea whose aligned part has room for `n` objects, and for no more, gets a free list of
-- exactly these objects in order.
make_subarea_freelist-HasFree :
    (n : ℕ) (s : State) (index : ℕ)
    → 0 < (s.area.subarea_array index).alignedoffset
    → 0 < s.area.objlength
    → suc n * s.area.objlength ≤ (s.area.subarea_array index).alignedsize
    → (s.area.subarea_array index).alignedsize < suc n * s.area.objlength + s.area.objlength
    → HasFree
        (make_subarea_freelist s index)
        (objects (suc n) s.area.objlength (s.area.subarea_array index).alignedoffset)
unfolding make_subarea_freelist set_freelist
make_subarea_freelist-HasFree n s index nonzero some_length fits last =
    let sub = s.area.subarea_array index in
    freelist_loop-IsLinked n sub.alignedsize s (sub.alignedoffset + sub.alignedsize)
      s.area.objlength sub.alignedoffset
      (enough_fuel n s.area.objlength sub.alignedsize some_length fits) nonzero some_length
      (omega arith) (omega arith)
  where
    enough_fuel : (n l size : ℕ) → 0 < l → suc n * l ≤ size → n ≤ size
    enough_fuel zero l size h fits = omega arith
    enough_fuel (suc n) l size h fits = omega (arith, enough_fuel n l (size - l) h (omega arith))
