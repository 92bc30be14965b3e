-- ===== src/Engine/Dates/Clock.antt =====
-- Times of day of dbdata.c in hundredths of a second, and the functions that check dates and times. What
-- `sscanf` answers is an argument: the number of fields that it read and their values.
use wasm_cloud_computing_ben.Prelude.{
  ℕ, ◌+◌, ◌-◌, ◌*◌, ◌/◌, ◌≤◌, ◌<◌, ◌≡◌, if◌then◌else◌, ltb, ◌||◌, arith,
}
use wasm_cloud_computing_ben.Prelude.Int.{ℤ, pos, neg}
use wasm_cloud_computing_ben.Engine.Dates.{
  Ymd, ymd_to_scalar, scalar_to_ymd, wg_ymd_to_date, years_to_days, months_to_days, isleap,
}
use wasm_cloud_computing_ben.Engine.Dates.Calendar.{
  IsDate, scalar_to_ymd-ymd_to_scalar, ymd_to_scalar_range,
}

pub record Hms : Type 0 where
  pub hr : ℕ
  pub min : ℕ
  pub sec : ℕ
  pub prt : ℕ

unfoldable pub wg_hms_to_time : ℤ → ℤ → ℤ → ℤ → ℤ
wg_hms_to_time (pos hr) (pos min) (pos sec) (pos prt) =
    if ltb 24 hr || ltb 60 min || ltb 60 sec || ltb 99 prt
    then neg 1
    else pos (hr * 360000 + min * 6000 + sec * 100 + prt)
wg_hms_to_time _ _ _ _ = neg 1

unfoldable pub wg_date_to_ymd : ℕ → Ymd
wg_date_to_ymd date = scalar_to_ymd date

-- For a time that is not negative.
unfoldable pub wg_time_to_hms : ℕ → Hms
wg_time_to_hms time =
    let after_hours = time - time / 360000 * 360000 in
    let after_minutes = after_hours - after_hours / 6000 * 6000 in
    record {
      hr = time / 360000;
      min = after_hours / 6000;
      sec = after_minutes / 100;
      prt = after_minutes - after_minutes / 100 * 100;
    }

-- The numbers that are printed.
unfoldable pub wg_strf_iso_datetime : ℕ → ℕ → Ymd × Hms
wg_strf_iso_datetime date time = (scalar_to_ymd date, wg_time_to_hms time)

unfoldable pub wg_strp_iso_date : ℕ → ℤ → ℤ → ℤ → ℤ
wg_strp_iso_date sres yr mo day = if ltb sres 3 then neg 1 else wg_ymd_to_date yr mo day

-- The part of a second may be missing: then `prt` is 0.
unfoldable pub wg_strp_iso_time : ℕ → ℤ → ℤ → ℤ → ℤ → ℤ
wg_strp_iso_time sres hr min sec prt = if ltb sres 3 then neg 1 else wg_hms_to_time hr min sec prt

-- A time of the day.
abbrev pub IsTime : ℕ → ℕ → ℕ → ℕ → Type 0
IsTime h m s p = (h < 24) × (m < 60) × (s < 60) × (p < 100)

-- Every time of the day is a number below 8640000, which gives its four parts back.
wg_time_to_hms-wg_hms_to_time :
    (h m s p : ℕ)
    → IsTime h m s p
    → (t : ℕ) × (wg_hms_to_time (pos h) (pos m) (pos s) (pos p) ≡ pos t)
      × (t < 8640000)
      × (wg_time_to_hms t ≡ record { hr = h; min = m; sec = s; prt = p })
unfolding wg_hms_to_time wg_time_to_hms
wg_time_to_hms-wg_hms_to_time h m s p v =
    (h * 360000 + m * 6000 + s * 100 + p, ground arith, omega arith, ground arith)

-- Every number below 8640000 has the parts of a time of the day, which give it back.
wg_hms_to_time-wg_time_to_hms :
    (t : ℕ)
    → t < 8640000
    → IsTime
        (wg_time_to_hms t).hr
        (wg_time_to_hms t).min
        (wg_time_to_hms t).sec
        (wg_time_to_hms t).prt
      × (wg_hms_to_time
            (pos (wg_time_to_hms t).hr)
            (pos (wg_time_to_hms t).min)
            (pos (wg_time_to_hms t).sec)
            (pos (wg_time_to_hms t).prt)
          ≡ pos t)
unfolding wg_hms_to_time wg_time_to_hms
wg_hms_to_time-wg_time_to_hms t small = ground arith

-- A text that gives the three numbers of a date of the years 1 to 9999 is read as a day number that
-- prints as the same date, and is taken apart into the same three numbers.
pub wg_strf_iso_datetime-wg_strp_iso_date :
    (y m d time : ℕ)
    → IsDate y m d
    → (date : ℕ) × (wg_strp_iso_date 3 (pos y) (pos m) (pos d) ≡ pos date)
      × ((wg_strf_iso_datetime date time).0 ≡ record { yr = y; mo = m; day = d })
      × (wg_date_to_ymd date ≡ record { yr = y; mo = m; day = d })
unfolding wg_strp_iso_date wg_ymd_to_date wg_strf_iso_datetime wg_date_to_ymd
wg_strf_iso_datetime-wg_strp_iso_date y m d time v = (
  ymd_to_scalar y m d,
  ground (arith, ymd_to_scalar_range y m d v),
  scalar_to_ymd-ymd_to_scalar y m d v,
  scalar_to_ymd-ymd_to_scalar y m d v,
)

-- The year 0 passes the check, and its dates become day numbers that no date can have.
pub wg_ymd_to_date_year_zero :
    (m d : ℕ)
    → 1 ≤ m
    → m ≤ 12
    → 1 ≤ d
    → d ≤ 31
    → (date : ℕ) × (wg_ymd_to_date (pos 0) (pos m) (pos d) ≡ pos date) × (1000000000 < date)
unfolding wg_ymd_to_date ymd_to_scalar years_to_days months_to_days isleap
wg_ymd_to_date_year_zero m d a b c e = (ymd_to_scalar 0 m d, ground arith, ground arith)

pub wg_ymd_to_date-eq :
    (y m d : ℕ) → IsDate y m d → wg_ymd_to_date (pos y) (pos m) (pos d) ≡ pos (ymd_to_scalar y m d)
unfolding wg_ymd_to_date
wg_ymd_to_date-eq y m d v = ground (arith, ymd_to_scalar_range y m d v)
