-- ===== src/Engine/Values/Types.antt =====
-- What is encoded in a word without an object: the value comes back, and the word says its type.
use wasm_cloud_computing_ben.Prelude.{
  ℕ, ◌-◌, ◌^◌, ◌≤◌, ◌<◌, ◌≡◌, Bool, true, false, if◌then◌else◌, leb, ◌⊎◌, arith,
}
use wasm_cloud_computing_ben.Prelude.Int.{ℤ, pos, negsuc}
use wasm_cloud_computing_ben.Engine.{State}
use wasm_cloud_computing_ben.Engine.Dates.{ymd_to_scalar, scalar_to_ymd, wg_ymd_to_date}
use wasm_cloud_computing_ben.Engine.Dates.Calendar.{
  IsDate, ymd_to_scalar_range, scalar_to_ymd-ymd_to_scalar,
}
use wasm_cloud_computing_ben.Engine.Dates.Clock.{wg_ymd_to_date-eq}
use wasm_cloud_computing_ben.Engine.Values.{
  wg_chartype, wg_datetype, wg_timetype, wg_vartype, wg_illegal, fits_smallint, issmallint, isvar,
  isdate, istime, fits_date, fits_time, fits_var, wg_encode_char, wg_decode_char, wg_encode_date,
  wg_decode_date, wg_encode_time, wg_decode_time, wg_encode_var, wg_decode_var, immediate_type,
  wg_get_encoded_type,
}

-- A word is a small integer just if its top four bits are equal.
fits_smallint_iff :
    (w : ℕ)
    → w < 2 ^ 32
    → fits_smallint w ≡ (if leb (2 ^ 28) w then leb (2 ^ 32 - 2 ^ 28) w else true)
unfolding fits_smallint
fits_smallint_iff w h = ground arith

-- Every `char` comes back, and its word says that it is one.
wg_decode_char-wg_encode_char :
    (s : State) (n : ℕ) (negative : Bool)
    → n < 128
    → let c = if negative then negsuc n else pos n in
      (wg_decode_char true (wg_encode_char true c) ≡ c)
      × (wg_get_encoded_type true s (wg_encode_char true c) ≡ wg_chartype)
unfolding wg_decode_char wg_encode_char wg_get_encoded_type immediate_type isvar issmallint
wg_decode_char-wg_encode_char s n true h = ground arith
wg_decode_char-wg_encode_char s n false h = ground arith

-- A day number in the range of dates, also a negative one, comes back, and its word says that it is a
-- date; another is refused.
pub wg_decode_date-wg_encode_date :
    (s : State) (date : ℤ)
    → ((fits_date date ≡ true)
        × (wg_decode_date true (wg_encode_date true date) ≡ date)
        × (wg_get_encoded_type true s (wg_encode_date true date) ≡ wg_datetype))
      ⊎ ((fits_date date ≡ false) × (wg_encode_date true date ≡ wg_illegal))
unfolding fits_date wg_decode_date wg_encode_date wg_get_encoded_type immediate_type isvar
    issmallint isdate
wg_decode_date-wg_encode_date s (pos n) = ground arith
wg_decode_date-wg_encode_date s (negsuc n) = ground arith

-- A time from 0 to 24 hours comes back, and its word says that it is a time; another is refused.
wg_decode_time-wg_encode_time :
    (s : State) (time : ℤ)
    → ((fits_time time ≡ true)
        × (wg_decode_time true (wg_encode_time true time) ≡ time)
        × (wg_get_encoded_type true s (wg_encode_time true time) ≡ wg_timetype))
      ⊎ ((fits_time time ≡ false) × (wg_encode_time true time ≡ wg_illegal))
unfolding fits_time wg_decode_time wg_encode_time wg_get_encoded_type immediate_type isvar
    issmallint istime
wg_decode_time-wg_encode_time s (pos n) = ground arith
wg_decode_time-wg_encode_time s (negsuc n) = ground arith

-- A variable's number whose top five bits are equal comes back, and its word says that it is a variable;
-- another is refused.
wg_decode_var-wg_encode_var :
    (s : State) (w : ℕ)
    → w < 2 ^ 32
    → ((fits_var w ≡ true)
        × (wg_decode_var true (wg_encode_var true w) ≡ w)
        × (wg_get_encoded_type true s (wg_encode_var true w) ≡ wg_vartype))
      ⊎ ((fits_var w ≡ false) × (wg_encode_var true w ≡ wg_illegal))
unfolding fits_var wg_decode_var wg_encode_var wg_get_encoded_type immediate_type isvar
wg_decode_var-wg_encode_var s w h = ground arith

small_date : (n : ℕ) → n ≤ 8323200 → wg_decode_date true (wg_encode_date true (pos n)) ≡ pos n
unfolding fits_date wg_decode_date wg_encode_date isdate
small_date n h = ground arith

-- A date of the years 1 to 9999 that is encoded and decoded is the same date.
date_through_value :
    (y m d : ℕ)
    → IsDate y m d
    → (date : ℕ) × (wg_decode_date true
          (wg_encode_date true (wg_ymd_to_date (pos y) (pos m) (pos d)))
        ≡ pos date)
      × (scalar_to_ymd date ≡ record { yr = y; mo = m; day = d })
date_through_value y m d v =
    let (first, last) = ymd_to_scalar_range y m d v in
    (
      ymd_to_scalar y m d,
      rw (wg_ymd_to_date-eq y m d v) (small_date (ymd_to_scalar y m d) (omega arith)),
      scalar_to_ymd-ymd_to_scalar y m d v,
    )
