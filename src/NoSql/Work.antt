-- ===== src/NoSql/Work.antt =====
-- The work of workloads/no_sql_db/wasm-src/no_sql_db.c: `run0`, `run1`, `work` and `fill_db`.
-- `exit(0)`, which the code calls when no record can be created, is `none`.
pub mod Count
use wasm_cloud_computing_ben.Prelude.{
  ℕ, zero, suc, ◌+◌, Option, none, some, List, [], ◌∷◌, ◌==◌, if◌then◌else◌,
}
use wasm_cloud_computing_ben.NoSql.Db.{Db}

abbrev pub records_number : ℕ
records_number = 30

abbrev pub rec_values : List ℕ
rec_values = 10 ∷ 20 ∷ 30 ∷ 40 ∷ 50 ∷ 60 ∷ 70 ∷ 80 ∷ 90 ∷ 100 ∷ []

-- How many records `fill_db` writes of each value.
abbrev pub rec_num : List ℕ
rec_num = 100 ∷ 300 ∷ 500 ∷ 700 ∷ 900 ∷ 1000 ∷ 200 ∷ 400 ∷ 500 ∷ 1000 ∷ []

-- `*result` and the database, or `exit(0)`; `unfinished`: the fuel of `run1` ran out.
pub data Outcome (S : Type 0) : Type 0 where
  done : ℕ → S → Outcome S
  exited unfinished : Outcome S

module _ (d : Db) where
  open d use {Store, Rec, create_record, encode_int, set_new_field, find_record_int}

  -- `wg_set_new_field(db, rec, 0, wg_encode_int(db, value))`
  unfoldable pub store_int : Store → Rec → ℕ → Store
  store_int s r value = let (e, s') = encode_int s value in set_new_field s' r e

  -- The loop that `run0` and `fill_db` share: `n` new records with the value.
  unfoldable pub write_records : ℕ → Store → ℕ → Option Store
  write_records zero s value = some s
  write_records (suc n) s value = elim (create_record s) [
    | none ↦ none
    | some (r, s') ↦ write_records n (store_int s' r value) value
  ]

  -- `*result` is the loop's counter at its end.
  unfoldable pub run0 : Store → ℕ → Option (ℕ × Store)
  run0 s value = elim (write_records records_number s value) [
    | none ↦ none
    | some s' ↦ some (records_number, s')
  ]

  -- The `while` loop of `run1`, on fuel, with what the search gave; `none` means that the fuel ran out.
  unfoldable pub count_loop : ℕ → Store → ℕ → Option (Option Rec) → ℕ → Option ℕ
  count_loop zero s value found count = none
  count_loop (suc fuel) s value none count = none
  count_loop (suc fuel) s value (some none) count = some count
  count_loop (suc fuel) s value (some (some r)) count =
      count_loop fuel s value (find_record_int s value (some r)) (count + 1)

  unfoldable pub run1 : ℕ → Store → ℕ → Option ℕ
  run1 fuel s value = count_loop fuel s value (find_record_int s value none) 0

  unfoldable pub write_work : Store → ℕ → Outcome Store
  write_work s value = elim (run0 s value) [ none ↦ exited | some (n, s') ↦ done n s' ]

  unfoldable pub count_work : ℕ → Store → ℕ → Outcome Store
  count_work fuel s value = elim (run1 fuel s value) [ none ↦ unfinished | some n ↦ done n s ]

  -- Any index but 0 and 1 prints a message and runs `run0`.
  unfoldable pub work : ℕ → Store → ℕ → ℕ → Outcome Store
  work fuel s index value =
      if index == 0
      then write_work s value
      else if index == 1
      then count_work fuel s value
      else write_work s value

  unfoldable pub fill_loop : List ℕ → List ℕ → Store → Option Store
  fill_loop [] vs s = some s
  fill_loop (n ∷ ns) [] s = some s
  fill_loop (n ∷ ns) (v ∷ vs) s = elim (write_records n s v) [
    | none ↦ none
    | some s' ↦ fill_loop ns vs s'
  ]

  unfoldable pub fill_db : Store → Option Store
  fill_db s = fill_loop rec_num rec_values s
