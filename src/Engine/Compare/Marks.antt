-- ===== src/Engine/Compare/Marks.antt =====
-- What the type of a value says of its word, and the comparison of dates, times and variables of
-- dbcompare.c, the other way round.
use wasm_cloud_computing_ben.Prelude.{
  ℕ, ◌%◌, ◌^◌, ◌≤◌, ◌<◌, ◌≡◌, ◌≢◌, ◌⊎◌, true, false, arith, inl, inr,
}
use wasm_cloud_computing_ben.Prelude.Int.{ℤ, pos, eqz}
use wasm_cloud_computing_ben.Engine.{State, dbfetch}
use wasm_cloud_computing_ben.Engine.Values.{
  wg_fixpointtype, wg_datetype, wg_timetype, wg_anonconsttype, wg_vartype, signed, isvar, isdate,
  istime, issmallint, wg_decode_date, wg_decode_time, wg_decode_var, immediate_type, pointer_type,
  wg_get_encoded_type,
}
use wasm_cloud_computing_ben.Engine.Compare.{flip, compare_dates}
use wasm_cloud_computing_ben.Engine.Compare.Parts.{greater_int-flip}

-- Two words with the same marks and different values.
pub decode_date-other :
    (a b : ℕ)
    → a < 2 ^ 32
    → b < 2 ^ 32
    → a ≢ b
    → a % 256 ≡ 0x2f
    → b % 256 ≡ 0x2f
    → eqz (wg_decode_date true a) (wg_decode_date true b) ≡ false
unfolding wg_decode_date isdate
decode_date-other a b ha hb ne da db = ground arith

pub decode_time-other :
    (a b : ℕ)
    → a ≢ b
    → a % 256 ≡ 0x3f
    → b % 256 ≡ 0x3f
    → eqz (wg_decode_time true a) (wg_decode_time true b) ≡ false
unfolding wg_decode_time istime
decode_time-other a b ne da db = ground arith

pub decode_var-other :
    (a b : ℕ)
    → a < 2 ^ 32
    → b < 2 ^ 32
    → a ≢ b
    → a % 16 ≡ 7
    → b % 16 ≡ 7
    → eqz (signed (wg_decode_var true a)) (signed (wg_decode_var true b)) ≡ false
unfolding wg_decode_var
decode_var-other a b ha hb ne da db = ground arith

pub signed-other : (a b : ℕ) → a < 2 ^ 32 → b < 2 ^ 32 → a ≢ b → eqz (signed a) (signed b) ≡ false
signed-other a b ha hb ne = ground arith

-- What a word is that holds a value: the type in a long string is that of a string.
abbrev pub IsValue : State → ℕ → Type 0
IsValue s w = (w < 2 ^ 32) × (w % 8 ≡ 4 → (5 ≤ dbfetch s w % 256) × (dbfetch s w % 256 ≤ 8))

-- The marks of a word of a type above that of characters.
pub type_marks :
    (s : State) (w n : ℕ)
    → IsValue s w
    → wg_get_encoded_type true s w ≡ pos n
    → 9 < n
    → ((n ≡ 10) × (w % 256 ≡ 0xf))
      ⊎ (((n ≡ 11) × (w % 256 ≡ 0x2f))
          ⊎ (((n ≡ 12) × (w % 256 ≡ 0x3f)) ⊎ ((n ≡ 13) ⊎ ((n ≡ 14) × (w % 16 ≡ 7)))))
unfolding wg_get_encoded_type immediate_type pointer_type isvar issmallint
type_marks s w n (small, long) e above = ground arith

pub fixpoint_marks :
    (s : State) (w : ℕ)
    → IsValue s w
    → wg_get_encoded_type true s w ≡ wg_fixpointtype
    → w % 256 ≡ 0xf
unfolding wg_get_encoded_type immediate_type pointer_type isvar issmallint
fixpoint_marks s w (small, long) e = ground arith

-- A type above that of fixpoints and the marks of a word of it.
pub data IsLate (w : ℕ) : ℤ → Type 0 where
  date : w % 256 ≡ 0x2f → IsLate w wg_datetype
  time : w % 256 ≡ 0x3f → IsLate w wg_timetype
  anonconst : IsLate w wg_anonconsttype
  var : w % 16 ≡ 7 → IsLate w wg_vartype

pub late :
    (s : State) (w n : ℕ)
    → IsValue s w
    → wg_get_encoded_type true s w ≡ pos n
    → 10 < n
    → IsLate w (pos n)
late s w n v e above = elim (type_marks s w n v e (omega arith)) [
  | inl (f, m) ↦ absurd (omega arith)
  | inr (inl (f, m)) ↦ rw f (date m)
  | inr (inr (inl (f, m))) ↦ rw f (time m)
  | inr (inr (inr (inl f))) ↦ rw f anonconst
  | inr (inr (inr (inr (f, m)))) ↦ rw f (var m)
]

pub dates-flip :
    (a b : ℕ) (type : ℤ)
    → a < 2 ^ 32
    → b < 2 ^ 32
    → a ≢ b
    → IsLate a type
    → IsLate b type
    → compare_dates type b a ≡ flip (compare_dates type a b)
unfolding compare_dates
dates-flip a b _ ha hb ne (date m) (date l) =
    greater_int-flip (wg_decode_date true a) (wg_decode_date true b)
      (decode_date-other a b ha hb ne m l)
dates-flip a b _ ha hb ne (time m) (time l) =
    greater_int-flip (wg_decode_time true a) (wg_decode_time true b) (decode_time-other a b ne m l)
dates-flip a b _ ha hb ne anonconst anonconst =
    greater_int-flip (signed a) (signed b) (signed-other a b ha hb ne)
dates-flip a b _ ha hb ne (var m) (var l) =
    greater_int-flip (signed (wg_decode_var true a)) (signed (wg_decode_var true b))
      (decode_var-other a b ha hb ne m l)
