-- ===== src/Engine/Records/Atomic.antt =====
-- The setting of a field without a write lock, of workloads/no_sql_db/wasm-src/dbdata.c, with
-- `wg_compare_and_swap` of dblock.c. The other threads' work is a sequence of changes of the state, one
-- before each access of the field's word. The arguments `is_indexed` is whether one of the two index
-- tables has an entry for a field, `is_db` what `dbcheck` answers. Logging is not
-- compiled in, and the sleeps between rounds are left out.

pub mod Linear
pub mod Sum
use wasm_cloud_computing_ben.Prelude.{
  ℕ, zero, suc, ◌+◌, ◌*◌, ◌%◌, ◌^◌, Bool, true, false, if◌then◌else◌, ltb, leb, ◌==◌, ◌&&◌, not,
  Option, none, some,
}
use wasm_cloud_computing_ben.Prelude.Int.{ℤ, pos, negsuc, neg}
use wasm_cloud_computing_ben.Engine.{State, dbfetch, dbstore}
use wasm_cloud_computing_ben.Engine.Values.{
  isimmediatedata, issmallint, fits_smallint, encode_smallint, wg_decode_int,
}
use wasm_cloud_computing_ben.Engine.Records.{field_offset, is_wrong_field}

abbrev pub max_indexed_fieldnr : ℕ
max_indexed_fieldnr = 127

-- The lowest bit of the second header word.
unfoldable pub is_special_record : State → ℕ → Bool
is_special_record s record_offset = dbfetch s (record_offset + 4) % 2 == 1

unfoldable pub wg_compare_and_swap : State → ℕ → ℕ → ℕ → Bool × State
wg_compare_and_swap s ptr oldv newv =
    if dbfetch s ptr == oldv then (true, dbstore s ptr newv) else (false, s)

-- `recordcheck`: 0, or the error that the functions return.
unfoldable pub recordcheck : Bool → State → ℕ → ℤ → ℤ
recordcheck is_db s record_offset (negsuc n) = if is_db then neg 2 else neg 1
recordcheck is_db s record_offset (pos fieldnr) =
    if not is_db then neg 1 else if is_wrong_field s record_offset fieldnr then neg 2 else pos 0

-- The tests stand in the function's order; each refuses with its error.
unfoldable pub wg_update_atomic_field : Bool → (ℕ → Bool) → State → ℕ → ℕ → ℕ → ℕ → ℤ × State
wg_update_atomic_field is_db is_indexed s record_offset fieldnr value old_value =
    let (swapped, s') =
      wg_compare_and_swap s (field_offset record_offset fieldnr) old_value value in
    if not is_db
    then (neg 1, s)
    else if is_wrong_field s record_offset fieldnr
    then (neg 2, s)
    else if not (isimmediatedata value)
    then (neg 10, s)
    else if not (isimmediatedata old_value)
    then (neg 11, s)
    else if not (is_special_record s record_offset)
        && leb fieldnr max_indexed_fieldnr
        && is_indexed fieldnr
    then (neg 13, s)
    else if swapped
    then (pos 0, s')
    else (neg 15, s')

-- What a loop does after `wg_update_atomic_field`: it ends, or makes the round after round `i`.
unfoldable pub after_update : ℕ → ℤ × State → Option (ℤ × State) → Option (ℤ × State)
after_update i (pos n, s) next_round = some (pos n, s)
after_update i (negsuc n, s) next_round =
    if not (n == 14)
    then some (negsuc n, s)
    else if ltb 1000 i
    then some (neg 17, s)
    else next_round

-- The loop of `wg_set_atomic_field` from round `i` on, on fuel.
unfoldable pub set_atomic_rounds :
    ℕ → Bool → (ℕ → Bool) → (ℕ → State → State) → ℕ → State → ℕ → ℕ → ℕ → Option (ℤ × State)
set_atomic_rounds zero is_db is_indexed others i s record_offset fieldnr value = none
set_atomic_rounds (suc fuel) is_db is_indexed others i s record_offset fieldnr value =
    let s0 = others (2 * i) s in
    let old = dbfetch s0 (field_offset record_offset fieldnr) in
    let s1 = others (2 * i + 1) s0 in
    let updated = wg_update_atomic_field is_db is_indexed s1 record_offset fieldnr value old in
    let next_round =
      set_atomic_rounds fuel is_db is_indexed others (i + 1) updated.1 record_offset fieldnr
        value in
    after_update i updated next_round

unfoldable pub wg_set_atomic_field :
    Bool → (ℕ → Bool) → (ℕ → State → State) → State → ℕ → ℤ → ℕ → Option (ℤ × State)
wg_set_atomic_field is_db is_indexed others s record_offset (negsuc n) value =
    some (recordcheck is_db s record_offset (negsuc n), s)
wg_set_atomic_field is_db is_indexed others s record_offset (pos fieldnr) value =
    elim (recordcheck is_db s record_offset (pos fieldnr)) [
      | negsuc e ↦ some (negsuc e, s)
      | pos ok ↦ set_atomic_rounds 1002 is_db is_indexed others 0 s record_offset fieldnr value
    ]

-- The word of a sum of two words.
unfoldable pub sum_of : Bool → State → ℕ → ℕ → ℕ
sum_of is_db s old value = (wg_decode_int is_db s old + value) % 2 ^ 32

-- The loop of `wg_add_int_atomic_field` from round `i` on, on fuel. The number to add is a word.
unfoldable pub add_int_rounds :
    ℕ → Bool → (ℕ → Bool) → (ℕ → State → State) → ℕ → State → ℕ → ℕ → ℕ → Option (ℤ × State)
add_int_rounds zero is_db is_indexed others i s record_offset fieldnr value = none
add_int_rounds (suc fuel) is_db is_indexed others i s record_offset fieldnr value =
    let s0 = others (2 * i) s in
    let old = dbfetch s0 (field_offset record_offset fieldnr) in
    let sum = sum_of is_db s0 old value in
    let s1 = others (2 * i + 1) s0 in
    let nxt = encode_smallint sum in
    let updated = wg_update_atomic_field is_db is_indexed s1 record_offset fieldnr nxt old in
    let next_round =
      add_int_rounds fuel is_db is_indexed others (i + 1) updated.1 record_offset fieldnr value in
    if not (issmallint old)
    then some (neg 11, s0)
    else if not (fits_smallint sum)
    then some (neg 16, s0)
    else after_update i updated next_round

unfoldable pub wg_add_int_atomic_field :
    Bool → (ℕ → Bool) → (ℕ → State → State) → State → ℕ → ℤ → ℕ → Option (ℤ × State)
wg_add_int_atomic_field is_db is_indexed others s record_offset (negsuc n) value =
    some (recordcheck is_db s record_offset (negsuc n), s)
wg_add_int_atomic_field is_db is_indexed others s record_offset (pos fieldnr) value =
    elim (recordcheck is_db s record_offset (pos fieldnr)) [
      | negsuc e ↦ some (negsuc e, s)
      | pos ok ↦ add_int_rounds 1002 is_db is_indexed others 0 s record_offset fieldnr value
    ]
