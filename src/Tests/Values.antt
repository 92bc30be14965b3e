-- ===== src/Tests/Values.antt =====
-- Values, dates, times and records at concrete inputs.
use wasm_cloud_computing_ben.Prelude.{
  ℕ, ◌+◌, ◌<◌, ◌≡◌, ◌⊎◌, ◌==◌, if◌then◌else◌, refl, true, false, [], ◌∷◌, arith,
}
use wasm_cloud_computing_ben.Prelude.Int.{pos}
use wasm_cloud_computing_ben.Engine.{State, dbfetch, unmarked}
use wasm_cloud_computing_ben.Engine.Fixlen.Freelist.{HasFree}
use wasm_cloud_computing_ben.Engine.Dates.{ymd_to_scalar, scalar_to_ymd, wg_ymd_to_date, isleap}
use wasm_cloud_computing_ben.Engine.Dates.Calendar.{IsDate, scalar_to_ymd-ymd_to_scalar}
use wasm_cloud_computing_ben.Engine.Dates.Clock.{wg_ymd_to_date_year_zero}
use wasm_cloud_computing_ben.Engine.Values.{
  wg_inttype, fits_smallint, wg_encode_int, wg_decode_int, wg_get_encoded_type,
}
use wasm_cloud_computing_ben.Engine.Values.Integers.{wg_decode_int-wg_encode_int}
use wasm_cloud_computing_ben.Engine.Records.{
  getusedobjectwantedgintsnr, wg_get_record_len, field_offset, is_wrong_field, wg_get_field,
}
use wasm_cloud_computing_ben.Engine.Records.Created.{IsFresh}
use wasm_cloud_computing_ben.Engine.Records.Atomic.{wg_set_atomic_field, wg_add_int_atomic_field}
use wasm_cloud_computing_ben.Engine.Records.Atomic.Linear.{
  IsKept, IsSetOnce, wg_set_atomic_field-IsSetOnce,
}
use wasm_cloud_computing_ben.Engine.Records.Atomic.Sum.{
  IsAddedOnce, wg_add_int_atomic_field-IsAddedOnce,
}
use wasm_cloud_computing_ben.Tests.Engine.{small_state, small_state-HasFree}

-- A leap day.
leap_day : IsDate 2024 2 29
unfolding isleap
leap_day = record {
  year_in = (omega arith, omega arith);
  month_in = (omega arith, omega arith);
  day_in = (omega arith, omega arith);
}

scalar_to_ymd-ymd_to_scalar_example :
    scalar_to_ymd (ymd_to_scalar 2024 2 29) ≡ record { yr = 2024; mo = 2; day = 29 }
scalar_to_ymd-ymd_to_scalar_example = scalar_to_ymd-ymd_to_scalar 2024 2 29 leap_day

wg_ymd_to_date_year_zero_example :
    (date : ℕ) × (wg_ymd_to_date (pos 0) (pos 3) (pos 1) ≡ pos date) × (1000000000 < date)
wg_ymd_to_date_year_zero_example =
    wg_ymd_to_date_year_zero 3 1 (omega arith) (omega arith) (omega arith) (omega arith)

wg_decode_int-wg_encode_int_example :
    (wg_decode_int true
        (wg_encode_int true small_state 3000000000).1
        (wg_encode_int true small_state 3000000000).0
      ≡ 3000000000)
    × (wg_get_encoded_type true
          (wg_encode_int true small_state 3000000000).1
          (wg_encode_int true small_state 3000000000).0
        ≡ wg_inttype)
    × (((fits_smallint 3000000000 ≡ true)
          × ((wg_encode_int true small_state 3000000000).1 ≡ small_state))
        ⊎ ((fits_smallint 3000000000 ≡ false)
            × ((wg_encode_int true small_state 3000000000).0 ≡ 3000 + 1)
            × HasFree (wg_encode_int true small_state 3000000000).1 (3012 ∷ 3024 ∷ [])))
wg_decode_int-wg_encode_int_example =
    wg_decode_int-wg_encode_int small_state 3000000000 3000 (3012 ∷ 3024 ∷ []) (omega arith)
      small_state-HasFree (omega arith, (omega arith, tt)) refl

-- A record at 5000 with two fields; the first is the integer 5.
abbrev record_words : ℕ → ℕ
record_words a = if a == 5000 then 20 else if a == 5012 then 43 else 0

abbrev record_state : State
record_state = record small_state {
  segment = record { memory = record_words; free = 6000; size = 50000 };
}

-- Another thread adds 1 to the first field before it is read for the first time.
abbrev others : ℕ → State → State
others i s =
    if i == 0
    then record s {
      segment = record s.segment { memory = λ a. if a == 5012 then 51 else s.segment.memory a };
    }
    else s

wg_set_atomic_field-IsSetOnce_example :
    IsKept others record_state
      (wg_set_atomic_field true (λ f. false) others record_state 5000 (pos 0) 83)
    ⊎ IsSetOnce others record_state
        (field_offset 5000 0)
        83
        (wg_set_atomic_field true (λ f. false) others record_state 5000 (pos 0) 83)
wg_set_atomic_field-IsSetOnce_example =
    wg_set_atomic_field-IsSetOnce true (λ f. false) others record_state 5000 0 83

wg_add_int_atomic_field-IsAddedOnce_example :
    IsKept others record_state
      (wg_add_int_atomic_field true (λ f. false) others record_state 5000 (pos 0) 7)
    ⊎ IsAddedOnce true others record_state
        (field_offset 5000 0)
        7
        (wg_add_int_atomic_field true (λ f. false) others record_state 5000 (pos 0) 7)
wg_add_int_atomic_field-IsAddedOnce_example =
    wg_add_int_atomic_field-IsAddedOnce true (λ f. false) others record_state 5000 0 7

abbrev fresh_words : ℕ → ℕ
fresh_words a = if a == 5000 then 20 else 0

abbrev fresh_state : State
fresh_state = record small_state {
  segment = record { memory = fresh_words; free = 6000; size = 50000 };
}

fresh_state-IsFresh : IsFresh fresh_state 5000 2
unfolding wg_get_record_len wg_get_field is_wrong_field field_offset getusedobjectwantedgintsnr
    unmarked dbfetch
fresh_state-IsFresh = (refl, λ f inside. ground arith, λ f far. ground arith)
