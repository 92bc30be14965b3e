-- ===== src/Engine/Dates.antt =====
-- Dates and times of workloads/no_sql_db/wasm-src/dbdata.c. A date is a day number, a time a number of
-- hundredths of a second. `unsigned` and `long` have 32 bits; a `long` that meets an `unsigned` becomes
-- one, so the sums are modulo 2 ^ 32.
pub mod Calendar
pub mod Clock
use wasm_cloud_computing_ben.Prelude.{
  ℕ, zero, suc, ◌+◌, ◌-◌, ◌*◌, ◌/◌, ◌%◌, ◌^◌, Bool, if◌then◌else◌, ltb, leb, ◌==◌, ◌&&◌, ◌||◌, not,
}
use wasm_cloud_computing_ben.Prelude.Int.{ℤ, pos, negsuc, neg}

unfoldable pub isleap : ℕ → Bool
isleap yr = yr % 400 == 0 || (yr % 4 == 0 && not (yr % 100 == 0))

unfoldable pub months_to_days : ℕ → ℕ
months_to_days month = (month * 3057 - 3007) / 100

-- `yr` below 2 ^ 32.
unfoldable pub years_to_days : ℕ → ℕ
years_to_days yr = (yr * 365 + yr / 4 + (2 ^ 32 - yr / 100) + yr / 400) % 2 ^ 32

-- A year before the first becomes the greatest `unsigned`.
unfoldable pub ymd_to_scalar : ℕ → ℕ → ℕ → ℕ
ymd_to_scalar yr mo day =
    let scalar = day + months_to_days mo in
    let adjust = if ltb 2 mo then (if isleap yr then 1 else 2) else 0 in
    (scalar - adjust + years_to_days ((yr + (2 ^ 32 - 1)) % 2 ^ 32)) % 2 ^ 32

-- The loop of `scalar_to_ymd`, on fuel: the first year from `n` on that ends on the day or later.
unfoldable pub find_year : ℕ → ℕ → ℕ → ℕ
find_year zero n scalar = n
find_year (suc fuel) n scalar =
    let later = find_year fuel (n + 1) scalar in if ltb (years_to_days n) scalar then later else n

pub record Ymd : Type 0 where
  pub yr : ℕ
  pub mo : ℕ
  pub day : ℕ

-- The day of the year, as if February had thirty days.
unfoldable pub past_february : ℕ → ℕ → ℕ
past_february yr n =
    let later = n + 2 in
    if ltb 59 n then (if isleap yr then later - (if ltb 62 later then 1 else 2) else later) else n

unfoldable pub month_of : ℕ → ℕ
month_of n = (n * 100 + 3007) / 3057

-- The product with 400 is that of a 32-bit `long` as long as it stays below 2 ^ 31, that is for
-- scalars below 5368710.
unfoldable pub scalar_to_ymd : ℕ → Ymd
scalar_to_ymd scalar =
    let yr = find_year scalar (scalar * 400 / 146097) scalar in
    let n = past_february yr (scalar - years_to_days (yr - 1)) in
    record { yr = yr; mo = month_of n; day = n - months_to_days (month_of n) }

-- An `int` argument that is negative is not `pos`; the sum of a `pos` year is an `int` again.
unfoldable pub wg_ymd_to_date : ℤ → ℤ → ℤ → ℤ
wg_ymd_to_date (pos yr) (pos mo) (pos day) =
    if ltb mo 1 || ltb 12 mo || ltb day 1 || ltb 31 day
    then neg 1
    else let scalar = ymd_to_scalar yr mo day in
      if ltb scalar (2 ^ 31) then pos scalar else neg (2 ^ 32 - scalar)
wg_ymd_to_date _ _ _ = neg 1
