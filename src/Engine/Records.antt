-- ===== src/Engine/Records.antt =====
-- Records of workloads/no_sql_db/wasm-src/dbdata.c, on the area of records (`datarec_area_header`): a
-- record is an object of variable length with three header words, its size, its marks and the list of
-- its parents, and a word for each field. The Boolean arguments are answers of `dbcheck`.
pub mod Created
pub mod Atomic
pub mod Scan
pub mod Integers
use wasm_cloud_computing_ben.Prelude.{
  ℕ, zero, suc, ◌+◌, ◌-◌, ◌*◌, ◌/◌, ◌%◌, ◌^◌, Bool, true, false, if◌then◌else◌, ltb, leb, ◌==◌,
  ◌&&◌, ◌||◌, not, Option, none, some, List, [], ◌∷◌,
}
use wasm_cloud_computing_ben.Prelude.Int.{ℤ, pos, negsuc, neg}
use wasm_cloud_computing_ben.Engine.{
  Subarea, Area, State, dbfetch, dbstore, unmarked, isfreeobject, isnormalusedobject,
  getfreeobjectsize, getusedobjectsize, subarea_array_size,
}
use wasm_cloud_computing_ben.Engine.Gints.{Allocated, returned, outside, unfinished, wg_alloc_gints}
use wasm_cloud_computing_ben.Engine.Values.{
  wg_illegal, isimmediatedata, issmallint, fits_smallint, encode_smallint, decode_smallint,
  wg_get_encoded_type,
}

abbrev pub record_header_gints : ℕ
record_header_gints = 3

-- `getusedobjectwantedgintsnr`, for four bytes.
unfoldable pub getusedobjectwantedgintsnr : ℕ → ℕ
getusedobjectwantedgintsnr i = unmarked i / 4

-- The loop that sets the fields to 0, for the `n` fields from word `i` on.
unfoldable pub clear_fields : ℕ → State → ℕ → ℕ → State
clear_fields zero s offset i = s
clear_fields (suc n) s offset i = clear_fields n (dbstore s (offset + i * 4) 0) offset (i + 1)

-- 0 stands for NULL. The length is below 2 ^ 31 - 3; a negative one is `negsuc`.
unfoldable pub wg_create_raw_record : ℕ → Bool → State → ℤ → Allocated
wg_create_raw_record fuel is_db s (negsuc n) = returned 0 s
wg_create_raw_record fuel is_db s (pos length) =
    if not is_db
    then returned 0 s
    else elim (wg_alloc_gints fuel s (length + record_header_gints)) [
      | returned offset s' ↦
          if offset == 0
          then returned 0 s'
          else let header = dbstore (dbstore s' (offset + 4) 0) (offset + 8) 0 in
            returned offset (clear_fields length header offset record_header_gints)
      | outside ↦ outside
      | unfinished ↦ unfinished
    ]

unfoldable pub wg_get_record_len : Bool → State → ℕ → ℤ
wg_get_record_len is_db s record_offset =
    let n = getusedobjectwantedgintsnr (dbfetch s record_offset) in
    if not is_db then neg 1 else if ltb n 3 then neg (3 - n) else pos (n - 3)

-- The offset of a field's word.
unfoldable pub field_offset : ℕ → ℕ → ℕ
field_offset record_offset fieldnr = record_offset + (record_header_gints + fieldnr) * 4

-- The second test of `recordcheck`, for a field number that is not negative.
unfoldable pub is_wrong_field : State → ℕ → ℕ → Bool
is_wrong_field s record_offset fieldnr =
    leb (getusedobjectwantedgintsnr (dbfetch s record_offset)) (fieldnr + record_header_gints)

unfoldable pub wg_get_field : Bool → State → ℕ → ℤ → ℕ
wg_get_field is_db s record_offset (negsuc n) = wg_illegal
wg_get_field is_db s record_offset (pos fieldnr) =
    if not is_db || is_wrong_field s record_offset fieldnr
    then wg_illegal
    else dbfetch s (field_offset record_offset fieldnr)

unfoldable pub wg_get_field_type : Bool → State → ℕ → ℤ → ℤ
wg_get_field_type is_db s record_offset (negsuc n) = pos 0
wg_get_field_type is_db s record_offset (pos fieldnr) =
    if not is_db || is_wrong_field s record_offset fieldnr
    then pos 0
    else wg_get_encoded_type is_db s (dbfetch s (field_offset record_offset fieldnr))

-- What `wg_set_new_field` does to a field that is in no index, of a record without parents, with a value
-- that is not a pointer: such a value changes no reference count and no list of parents.
unfoldable pub wg_set_new_field : Bool → State → ℕ → ℤ → ℕ → ℤ × State
wg_set_new_field is_db s record_offset (negsuc n) value = (if is_db then neg 2 else neg 1, s)
wg_set_new_field is_db s record_offset (pos fieldnr) value =
    if not is_db
    then (neg 1, s)
    else if is_wrong_field s record_offset fieldnr
    then (neg 2, s)
    else if not (dbfetch s (field_offset record_offset fieldnr) == 0)
    then (neg 2, s)
    else (pos 0, dbstore s (field_offset record_offset fieldnr) value)
