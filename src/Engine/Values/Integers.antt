-- ===== src/Engine/Values/Integers.antt =====
-- Integers in words, and in objects of the word area.
use wasm_cloud_computing_ben.Prelude.{
  ℕ, ◌+◌, ◌%◌, ◌^◌, ◌<◌, ◌≡◌, ◌≢◌, refl, true, false, ◌==◌, ◌⊎◌, inl, inr, Bool-cases, List, ◌∷◌,
  All, arith,
}
use wasm_cloud_computing_ben.Engine.{State, dbfetch, dbstore, store_word, unmarked}
use wasm_cloud_computing_ben.Engine.Fixlen.{wg_alloc_fixlen_object}
use wasm_cloud_computing_ben.Engine.Fixlen.Freelist.{
  IsLinked, HasFree, IsLinked-store_word, wg_alloc_fixlen_object-HasFree,
}
use wasm_cloud_computing_ben.Engine.Values.{
  wg_inttype, fits_smallint, encode_smallint, decode_smallint, issmallint, isvar, isfullint,
  encode_fullint_offset, decode_fullint_offset, wg_encode_int, wg_decode_int, wg_get_encoded_type,
  immediate_type, pointer_type,
}

-- The value is stored in the word alone, and the state is as before.
pub smallint :
    (s : State) (w : ℕ)
    → w < 2 ^ 32
    → fits_smallint w ≡ true
    → (wg_encode_int true s w ≡ (encode_smallint w, s))
      × (wg_decode_int true s (encode_smallint w) ≡ w)
      × (wg_get_encoded_type true s (encode_smallint w) ≡ wg_inttype)
unfolding wg_encode_int wg_decode_int wg_get_encoded_type immediate_type isvar issmallint
    encode_smallint decode_smallint fits_smallint
smallint s w small fits = ground arith

free_nonzero : (s : State) (x : ℕ) (xs : List ℕ) → HasFree s (x ∷ xs) → x ≢ 0
unfolding IsLinked
free_nonzero s x xs (_, nonzero, _) = nonzero

encoded : (x : ℕ) → encode_fullint_offset x ≡ x + 1
unfolding encode_fullint_offset
encoded x = refl

fetched : (s : State) (x w : ℕ) → x % 4 ≡ 0 → wg_decode_int true (dbstore s x w) (x + 1) ≡ w
unfolding wg_decode_int issmallint isfullint decode_fullint_offset unmarked dbfetch dbstore
    store_word
fetched s x w aligned = ground arith

marked : (s : State) (x : ℕ) → x % 4 ≡ 0 → x ≢ 0 → wg_get_encoded_type true s (x + 1) ≡ wg_inttype
unfolding wg_get_encoded_type pointer_type
marked s x aligned nonzero = ground arith

kept :
    (s : State) (x w : ℕ) (xs : List ℕ)
    → All (λ y. y ≢ x) xs
    → HasFree s xs
    → HasFree (dbstore s x w) xs
unfolding dbstore
kept s x w xs apart free = IsLinked-store_word s.segment.memory x w s.area.freelist xs apart free

-- The value stands in the first free object, which leaves the free list.
full_int :
    (s : State) (w x : ℕ) (xs : List ℕ)
    → w < 2 ^ 32
    → fits_smallint w ≡ false
    → HasFree s (x ∷ xs)
    → All (λ y. y ≢ x) xs
    → x % 4 ≡ 0
    → ((wg_encode_int true s w).0 ≡ x + 1)
      × (wg_decode_int true (wg_encode_int true s w).1 (x + 1) ≡ w)
      × (wg_get_encoded_type true (wg_encode_int true s w).1 (x + 1) ≡ wg_inttype)
      × HasFree (wg_encode_int true s w).1 xs
unfolding wg_encode_int
full_int s w x xs small large free apart aligned =
    let (first, rest) = wg_alloc_fixlen_object-HasFree s x xs free in
    let s1 = (wg_alloc_fixlen_object s).1 in
    let nonzero = free_nonzero s x xs free in
    let taken : (x == 0) ≡ false = ground arith in
    rw (large, first, taken)
      (
        encoded x,
        fetched s1 x w aligned,
        marked (dbstore s1 x w) x aligned nonzero,
        kept s1 x w xs apart rest,
      )

-- Every integer comes back and is said to be one, if an aligned object of the word area is free: a value
-- whose top four bits are equal without a change of state, another in the first free object, which
-- leaves the free list.
pub wg_decode_int-wg_encode_int :
    (s : State) (w x : ℕ) (xs : List ℕ)
    → w < 2 ^ 32
    → HasFree s (x ∷ xs)
    → All (λ y. y ≢ x) xs
    → x % 4 ≡ 0
    → (wg_decode_int true (wg_encode_int true s w).1 (wg_encode_int true s w).0 ≡ w)
      × (wg_get_encoded_type true (wg_encode_int true s w).1 (wg_encode_int true s w).0
          ≡ wg_inttype)
      × (((fits_smallint w ≡ true) × ((wg_encode_int true s w).1 ≡ s))
          ⊎ ((fits_smallint w ≡ false)
              × ((wg_encode_int true s w).0 ≡ x + 1)
              × HasFree (wg_encode_int true s w).1 xs))
wg_decode_int-wg_encode_int s w x xs small free apart aligned =
    elim (Bool-cases (fits_smallint w)) [
      | inl fits ↦
          let (same, back, type) = smallint s w small fits in rw same (back, type, inl (fits, refl))
      | inr large ↦
          let (word, back, type, rest) = full_int s w x xs small large free apart aligned in
          (rw word back, rw word type, inr (large, word, rest))
    ]
