-- ===== src/Engine/Dates/Calendar.antt =====
-- The day number of a date, and the date of a day number.
use wasm_cloud_computing_ben.Prelude.{
  ℕ, zero, suc, ◌+◌, ◌-◌, ◌*◌, ◌/◌, ◌≤◌, ◌<◌, ◌≡◌, refl, if◌then◌else◌, ltb, ◌==◌, ◌||◌, arith,
}
use native.Mathlib.Decide.{dec_lt}
use wasm_cloud_computing_ben.Engine.Dates.{
  isleap, months_to_days, years_to_days, ymd_to_scalar, find_year, past_february, month_of,
  scalar_to_ymd,
}

-- The lengths of the months.
abbrev pub days_in_month : ℕ → ℕ → ℕ
days_in_month y m =
    if m == 2
    then (if isleap y then 29 else 28)
    else if (m == 4) || (m == 6) || (m == 9) || (m == 11)
    then 30
    else 31

abbrev pub days_in_year : ℕ → ℕ
days_in_year y = if isleap y then 366 else 365

-- A date of the years 1 to 9999.
pub record IsDate (y m d : ℕ) : Type 0 where
  pub year_in : (1 ≤ y) × (y ≤ 9999)
  pub month_in : (1 ≤ m) × (m ≤ 12)
  pub day_in : (1 ≤ d) × (d ≤ days_in_month y m)

years_step : (y : ℕ) → y < 20000 → years_to_days (suc y) ≡ years_to_days y + days_in_year (suc y)
unfolding years_to_days isleap
years_step y h = ground arith

years_mono : (n m : ℕ) → n ≤ m → m < 20000 → years_to_days n ≤ years_to_days m
unfolding years_to_days
years_mono n m h small = omega arith

start_low : (y scalar : ℕ) → y < 10000 → scalar ≤ years_to_days y → scalar * 400 / 146097 ≤ y
unfolding years_to_days
start_low y scalar h small = omega arith

find_year_lem :
    (fuel n y scalar : ℕ)
    → n ≤ y
    → y ≤ n + fuel
    → y < 10000
    → 1 ≤ y
    → years_to_days (y - 1) < scalar
    → scalar ≤ years_to_days y
    → find_year fuel n scalar ≡ y
unfolding find_year
find_year_lem zero n y scalar low high small some_year after upto = omega arith
find_year_lem (suc fuel) n y scalar low high small some_year after upto = elim (dec_lt n y) [
  | yes before ↦
      let early = years_mono n (y - 1) (omega arith) (omega arith) in
      ground (arith, find_year_lem fuel (n + 1) y scalar)
  | no last ↦ let same : n ≡ y = omega arith in rw same (ground arith)
]

years_low : (y : ℕ) → y < 10000 → y ≤ years_to_days y
unfolding years_to_days
years_low y h = omega arith

-- The day's number in its year.
abbrev pub day_of_year : ℕ → ℕ → ℕ → ℕ
day_of_year y m d = d + months_to_days m - (if ltb 2 m then (if isleap y then 1 else 2) else 0)

day_of_year_range :
    (y m d : ℕ) → IsDate y m d → (1 ≤ day_of_year y m d) × (day_of_year y m d ≤ days_in_year y)
unfolding months_to_days
day_of_year_range y m d v = ground arith

ymd_to_scalar-eq :
    (y m d : ℕ) → IsDate y m d → ymd_to_scalar y m d ≡ years_to_days (y - 1) + day_of_year y m d
unfolding ymd_to_scalar years_to_days months_to_days
ymd_to_scalar-eq y m d v = ground arith

month_back :
    (y m d : ℕ)
    → IsDate y m d
    → (month_of (past_february y (day_of_year y m d)) ≡ m)
      × (past_february y (day_of_year y m d) ≡ d + months_to_days m)
unfolding month_of past_february months_to_days
month_back y m d v = ground arith

year_parts :
    (y m d : ℕ)
    → IsDate y m d
    → (years_to_days (y - 1) < ymd_to_scalar y m d)
      × (ymd_to_scalar y m d ≤ years_to_days y)
      × (ymd_to_scalar y m d - years_to_days (y - 1) ≡ day_of_year y m d)
year_parts y m d v =
    let (first, last) = day_of_year_range y m d v in
    let whole = ymd_to_scalar-eq y m d v in
    let same : suc (y - 1) ≡ y = omega (arith, v.year_in) in
    let length : years_to_days y ≡ years_to_days (y - 1) + days_in_year y =
      rw same at (years_step (y - 1) (omega (arith, v.year_in))) in
    omega arith

find_year-ymd_to_scalar :
    (y m d : ℕ)
    → IsDate y m d
    → find_year (ymd_to_scalar y m d) (ymd_to_scalar y m d * 400 / 146097) (ymd_to_scalar y m d) ≡ y
find_year-ymd_to_scalar y m d v =
    let (after, upto, _) = year_parts y m d v in
    find_year_lem (ymd_to_scalar y m d) (ymd_to_scalar y m d * 400 / 146097) y (ymd_to_scalar y m d)
      (start_low y (ymd_to_scalar y m d) (omega (arith, v.year_in)) upto)
      (omega (arith, v.year_in, years_low (y - 1) (omega (arith, v.year_in))))
      (omega (arith, v.year_in)) v.year_in.0 after upto

-- `scalar_to_ymd` undoes `ymd_to_scalar` on every date of the years 1 to 9999.
pub scalar_to_ymd-ymd_to_scalar :
    (y m d : ℕ)
    → IsDate y m d
    → scalar_to_ymd (ymd_to_scalar y m d) ≡ record { yr = y; mo = m; day = d }
unfolding scalar_to_ymd
scalar_to_ymd-ymd_to_scalar y m d v =
    let (_, _, rest) = year_parts y m d v in
    let (month, day) = month_back y m d v in
    rw (find_year-ymd_to_scalar y m d v, rest, month, day) (ground arith)

month_forth :
    (y n : ℕ)
    → 1 ≤ y
    → y ≤ 9999
    → 1 ≤ n
    → n ≤ days_in_year y
    → IsDate y
        (month_of (past_february y n))
        (past_february y n - months_to_days (month_of (past_february y n)))
      × (day_of_year y
            (month_of (past_february y n))
            (past_february y n - months_to_days (month_of (past_february y n)))
          ≡ n)
unfolding month_of past_february months_to_days
month_forth y n low high some_day fits = ground arith

year_zero : years_to_days 0 ≡ 0
unfolding years_to_days
year_zero = refl

last_day : years_to_days 9999 ≡ 3652059
unfolding years_to_days
last_day = refl

-- The year in which a day lies.
year_of_day :
    (last scalar : ℕ)
    → 1 ≤ scalar
    → scalar ≤ years_to_days last
    → (y : ℕ) × (1 ≤ y) × (y ≤ last) × (years_to_days (y - 1) < scalar) × (scalar ≤ years_to_days y)
year_of_day zero scalar some_day fits = absurd (omega (arith, year_zero))
year_of_day (suc last) scalar some_day fits = elim (dec_lt (years_to_days last) scalar) [
  | yes after ↦ (
    suc last,
    omega arith,
    omega arith,
    let same : suc last - 1 ≡ last = omega arith in rw same after,
    fits,
  )
  | no before ↦
      let (y, first, below, after, upto) = year_of_day last scalar some_day (omega arith) in
      (y, first, omega arith, after, upto)
]

-- `ymd_to_scalar` undoes `scalar_to_ymd`, and the result is a date, on every day number of the years 1
-- to 9999.
pub ymd_to_scalar-scalar_to_ymd :
    (scalar : ℕ)
    → 1 ≤ scalar
    → scalar ≤ 3652059
    → IsDate (scalar_to_ymd scalar).yr (scalar_to_ymd scalar).mo (scalar_to_ymd scalar).day
      × (ymd_to_scalar
            (scalar_to_ymd scalar).yr
            (scalar_to_ymd scalar).mo
            (scalar_to_ymd scalar).day
          ≡ scalar)
unfolding scalar_to_ymd
ymd_to_scalar-scalar_to_ymd scalar some_day fits =
    let (y, first, below, after, upto) =
      year_of_day 9999 scalar some_day (omega (arith, last_day)) in
    let year : find_year scalar (scalar * 400 / 146097) scalar ≡ y =
      find_year_lem scalar (scalar * 400 / 146097) y scalar (start_low y scalar (omega arith) upto)
        (omega (arith, years_low (y - 1) (omega arith))) (omega arith) first after upto in
    let same : suc (y - 1) ≡ y = omega arith in
    let length : years_to_days y ≡ years_to_days (y - 1) + days_in_year y =
      rw same at (years_step (y - 1) (omega arith)) in
    let (date, back) =
      month_forth y (scalar - years_to_days (y - 1)) first below (omega arith) (omega arith) in
    rw year (date, omega (arith, ymd_to_scalar-eq y _ _ date, back))

-- Day numbers of dates run from 1 to that of 9999-12-31.
pub ymd_to_scalar_range :
    (y m d : ℕ) → IsDate y m d → (1 ≤ ymd_to_scalar y m d) × (ymd_to_scalar y m d ≤ 3652059)
ymd_to_scalar_range y m d v =
    let (after, upto, _) = year_parts y m d v in
    omega (arith, last_day, years_mono y 9999 v.year_in.1 (omega arith))
