-- ===== src/Engine/Fixlen.antt =====
-- Objects of fixed length, of dballoc.c: `make_subarea_freelist`, `wg_alloc_fixlen_object`,
-- `extend_fixedlen_area` and the functions that free. The objects that are free are linked through
-- their first words, from `freelist` on.
pub mod Freelist
pub mod Extend
use wasm_cloud_computing_ben.Prelude.{
  ℕ, zero, suc, ◌+◌, ◌*◌, ◌/◌, ◌%◌, ◌^◌, if◌then◌else◌, ltb, leb, ◌==◌, ◌&&◌,
}
use wasm_cloud_computing_ben.Prelude.Int.{ℤ, pos}
use wasm_cloud_computing_ben.Engine.{
  Area, State, dbfetch, dbstore, minimal_subarea_size, subarea_array_size,
}
use wasm_cloud_computing_ben.Engine.Chunks.{init_db_subarea}

-- `freelist = offset` of the area.
unfoldable pub set_freelist : State → ℕ → State
set_freelist s offset = record s { area = record s.area { freelist = offset } }

-- The loop of `make_subarea_freelist` and the store behind it, on fuel: `i <= max` is written without
-- the subtraction in `max`, and `end` is the end of the subarea.
unfoldable pub freelist_loop : ℕ → State → ℕ → ℕ → ℕ → State
freelist_loop zero s end objlength i = dbstore s i 0
freelist_loop (suc fuel) s end objlength i =
    let rest = freelist_loop fuel (dbstore s i (i + objlength)) end objlength (i + objlength) in
    if leb (i + 2 * objlength) end then rest else dbstore s i 0

unfoldable pub make_subarea_freelist : State → ℕ → State
make_subarea_freelist s arrayindex =
    let subarea = s.area.subarea_array arrayindex in
    let offset = subarea.alignedoffset in
    let end = offset + subarea.alignedsize in
    set_freelist (freelist_loop subarea.alignedsize s end s.area.objlength offset) offset

-- The `while` loop of `extend_fixedlen_area`, on fuel, up to the first size for which a subarea is made;
-- its size, or 0.
unfoldable pub try_sizes : ℕ → State → ℕ → ℕ → ℕ × State
try_sizes zero s index newsize = (0, s)
try_sizes (suc fuel) s index newsize =
    let (status, s') = init_db_subarea s index newsize in
    let smaller = try_sizes fuel s' index (newsize / 2) in
    if leb minimal_subarea_size newsize
    then elim status [ pos n ↦ if n == 0 then (newsize, s') else smaller | _ ↦ smaller ]
    else (0, s)

-- `size << 1`, which is negative from 2 ^ 31 on: then the loop is not entered.
unfoldable pub doubled : ℕ → ℕ
doubled size = let newsize = size * 2 % 2 ^ 32 in if leb (2 ^ 31) newsize then 0 else newsize

unfoldable pub extend_fixedlen_area : State → ℕ × State
extend_fixedlen_area s =
    let index = s.area.last_subarea_index + 1 in
    let newsize = doubled (s.area.subarea_array s.area.last_subarea_index).size in
    let (made, s') = try_sizes (newsize / 4096) s index newsize in
    if leb subarea_array_size index
    then (0, s)
    else if made == 0
    then (0, s')
    else (made, make_subarea_freelist s' index)

-- `areah->freelist = dbfetch(db, freelist)`, and the object.
unfoldable pub take_first : State → ℕ × State
take_first s = (s.area.freelist, set_freelist s (dbfetch s s.area.freelist))

unfoldable pub wg_alloc_fixlen_object : State → ℕ × State
wg_alloc_fixlen_object s =
    let (extended, s') = extend_fixedlen_area s in
    if s.area.freelist == 0
    then if extended == 0 then (0, s') else if s'.area.freelist == 0 then (0, s') else take_first s'
    else take_first s

-- Also `wg_free_listcell`, `wg_free_shortstr`, `wg_free_word`, `wg_free_doubleword` and `wg_free_tnode`,
-- which are this function for one area each.
unfoldable pub wg_free_fixlen_object : State → ℕ → State
wg_free_fixlen_object s offset = set_freelist (dbstore s offset s.area.freelist) offset
