-- ===== src/Engine/Query.antt =====
-- The queries of workloads/no_sql_db/wasm-src/dbquery.c that scan the records: the conditions on the
-- fields of a record, and `wg_find_record` on a column without an index, which is every column of
-- no_sql_db.c. 0 stands for NULL, the database pointer is valid, and the loops take fuel: `rounds` for the
-- records that are passed over, `fuel` for the objects between two records.
pub mod Follow
pub mod Find
pub mod Ints
pub mod Results
pub mod Join
use wasm_cloud_computing_ben.Prelude.{
  ℕ, zero, suc, ◌-◌, ◌%◌, Bool, true, false, if◌then◌else◌, ◌==◌, ◌||◌, not, Option, none, some,
  List, [], ◌∷◌,
}
use wasm_cloud_computing_ben.Prelude.Int.{ℤ, ltz}
use wasm_cloud_computing_ben.Engine.{State, dbstore}
use wasm_cloud_computing_ben.Engine.Values.{
  wg_illegal, fits_smallint, encode_smallint, encode_fullint_offset, decode_fullint_offset, isptr,
}
use wasm_cloud_computing_ben.Engine.Records.{wg_get_record_len, wg_get_field}
use wasm_cloud_computing_ben.Engine.Records.Scan.{wg_get_first_record, wg_get_next_record}
use wasm_cloud_computing_ben.Engine.Compare.{
  Comparison, wg_equal, wg_greater, wg_lessthan, Decoders, compare_encoded,
}

abbrev pub wg_cond_equal : ℕ
wg_cond_equal = 1

abbrev pub wg_cond_not_equal : ℕ
wg_cond_not_equal = 2

abbrev pub wg_cond_lessthan : ℕ
wg_cond_lessthan = 4

abbrev pub wg_cond_greater : ℕ
wg_cond_greater = 8

abbrev pub wg_cond_ltequal : ℕ
wg_cond_ltequal = 16

abbrev pub wg_cond_gtequal : ℕ
wg_cond_gtequal = 32

pub record QueryArg : Type 0 where
  pub column : ℤ
  pub cond : ℕ
  pub value : ℕ

abbrev pub is_equal : Comparison → Bool
is_equal wg_equal = true
is_equal wg_greater = false
is_equal wg_lessthan = false

abbrev pub is_greater : Comparison → Bool
is_greater wg_equal = false
is_greater wg_greater = true
is_greater wg_lessthan = false

abbrev pub is_less : Comparison → Bool
is_less wg_equal = false
is_less wg_greater = false
is_less wg_lessthan = true

-- The `switch` of `check_arglist`: whether it goes on to the next condition.
unfoldable pub meets : ℕ → Comparison → Bool
meets cond c =
    if cond == wg_cond_equal
    then is_equal c
    else if cond == wg_cond_lessthan
    then is_less c
    else if cond == wg_cond_greater
    then is_greater c
    else if cond == wg_cond_ltequal
    then not (is_greater c)
    else if cond == wg_cond_gtequal
    then not (is_less c)
    else if cond == wg_cond_not_equal
    then not (is_equal c)
    else true

-- What `malloc` answers: NULL, or the offset of the memory from the database's start.
unfoldable pub wg_encode_query_param_int : Option ℕ → State → ℕ → ℕ × State
wg_encode_query_param_int dptr s number =
    if fits_smallint number then (encode_smallint number, s) else elim dptr [
      | none ↦ (wg_illegal, s)
      | some offset ↦ (encode_fullint_offset offset, dbstore s offset number)
    ]

-- The offset that `wg_free_query_param` frees, if any; that of a double and of a string is the word less
-- its marks.
unfoldable pub wg_free_query_param : ℕ → Option ℕ
wg_free_query_param encoded =
    let mark = encoded % 8 in
    if not (isptr encoded)
    then none
    else if mark == 0
    then none
    else if mark == 6 || mark == 4 || mark == 2
    then some (encoded - mark)
    else if mark == 1 || mark == 5
    then some (decode_fullint_offset encoded)
    else none

module _ (d : Decoders) where
  unfoldable pub check_arglist : State → ℕ → List QueryArg → Bool
  check_arglist s rec [] = true
  check_arglist s rec (arg ∷ arglist) =
      let rest = check_arglist s rec arglist in
      if ltz arg.column (wg_get_record_len true s rec)
      then if meets arg.cond (compare_encoded d s (wg_get_field true s rec arg.column) arg.value)
        then rest
        else false
      else false

  -- The loop `while(rec)` of `wg_find_record`.
  unfoldable pub find_loop : ℕ → ℕ → ℕ → State → List QueryArg → ℕ → Option ℕ
  find_loop zero rounds fuel s arglist rec = none
  find_loop (suc n) rounds fuel s arglist rec =
      let rest : Option ℕ = elim (wg_get_next_record rounds fuel true s rec) [
        | none ↦ none
        | some next ↦ find_loop n rounds fuel s arglist next
      ] in
      if rec == 0 then some 0 else if check_arglist s rec arglist then some rec else rest

  unfoldable pub wg_find_record : ℕ → ℕ → State → ℤ → ℕ → ℕ → ℕ → Option ℕ
  wg_find_record rounds fuel s fieldnr cond encoded lastrecord =
      let first =
        if lastrecord == 0
        then wg_get_first_record rounds fuel true s
        else wg_get_next_record rounds fuel true s lastrecord in
      elim first [
        | none ↦ none
        | some rec ↦
            find_loop rounds rounds fuel s
              (record { column = fieldnr; cond = cond; value = encoded } ∷ []) rec
      ]

  -- The record and what `wg_free_query_param` frees.
  unfoldable pub wg_find_record_int : Option ℕ → ℕ → ℕ → State → ℤ → ℕ → ℕ → ℕ → Option ℕ × Option ℕ
  wg_find_record_int dptr rounds fuel s fieldnr cond number lastrecord =
      let (enc, s') = wg_encode_query_param_int dptr s number in
      (wg_find_record rounds fuel s' fieldnr cond enc lastrecord, wg_free_query_param enc)
