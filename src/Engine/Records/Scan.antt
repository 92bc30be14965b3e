-- ===== src/Engine/Records/Scan.antt =====
-- The records one after the other, of workloads/no_sql_db/wasm-src/dbdata.c: all used objects of the area of
-- records, subarea by subarea. 0 stands for NULL; the loops take fuel, and `none` is a lack of it. The
-- argument `is_db` is what `dbcheck` answers.
pub mod Layout
pub mod Next
use wasm_cloud_computing_ben.Prelude.{
  ℕ, zero, suc, ◌+◌, Bool, true, false, if◌then◌else◌, ltb, leb, ◌==◌, ◌&&◌, ◌||◌, not, Option,
  none, some,
}
use wasm_cloud_computing_ben.Engine.{
  State, dbfetch, isnormalusedobject, isfreeobject, getfreeobjectsize, getusedobjectsize,
  subarea_array_size,
}
use wasm_cloud_computing_ben.Engine.Records.Atomic.{is_special_record}

-- The search for the subarea of an offset, from index `i` on and for `rounds` rounds.
unfoldable pub find_subarea : ℕ → State → ℕ → ℕ → Option ℕ
find_subarea zero s curoffset i = none
find_subarea (suc rounds) s curoffset i =
    let subarea = s.area.subarea_array i in
    let rest = find_subarea rounds s curoffset (i + 1) in
    if ltb s.area.last_subarea_index i
    then none
    else if leb subarea.alignedoffset curoffset && ltb curoffset (subarea.offset + subarea.size)
    then some i
    else rest

-- A round of the loop ends with a record, with NULL, or at an object, which may be a free one.
pub data Round : Type 0 where
  found : ℕ → Round
  nothing : Round
  at : ℕ → Bool → Round

-- Behind the end marker of subarea `i`.
unfoldable pub next_subarea : State → ℕ → Round
next_subarea s i =
    if ltb s.area.last_subarea_index (i + 1) || leb subarea_array_size (i + 1)
    then nothing
    else at (s.area.subarea_array (i + 1)).alignedoffset false

-- The size of the object at an offset.
unfoldable pub size_at : State → ℕ → Bool → ℕ
size_at s curoffset freemarker =
    if freemarker
    then getfreeobjectsize (dbfetch s curoffset)
    else getusedobjectsize (dbfetch s curoffset)

unfoldable pub scan_round : State → ℕ → Bool → Round
scan_round s curoffset freemarker =
    let next = curoffset + size_at s curoffset freemarker in
    let head = dbfetch s next in
    if isnormalusedobject head
    then found next
    else if isfreeobject head
    then at next true
    else if dbfetch s (next + 4) == 1
    then at next false
    else elim (find_subarea subarea_array_size s next 0) [
      | none ↦ nothing
      | some i ↦ next_subarea s i
    ]

-- The loop of `wg_get_next_raw_record`.
unfoldable pub scan : ℕ → State → ℕ → Bool → Option ℕ
scan zero s curoffset freemarker = none
scan (suc fuel) s curoffset freemarker = elim (scan_round s curoffset freemarker) [
  | found offset ↦ some offset
  | nothing ↦ some 0
  | at offset free ↦ scan fuel s offset free
]

unfoldable pub wg_get_next_raw_record : ℕ → Bool → State → ℕ → Option ℕ
wg_get_next_raw_record fuel is_db s curoffset =
    if not is_db || isfreeobject (dbfetch s curoffset) then some 0 else scan fuel s curoffset false

unfoldable pub wg_get_first_raw_record : ℕ → Bool → State → Option ℕ
wg_get_first_raw_record fuel is_db s =
    if is_db
    then wg_get_next_raw_record fuel is_db s (s.area.subarea_array 0).alignedoffset
    else some 0

-- The loop of `wg_get_next_record` takes `rounds`; `fuel` is that of the loop inside.
unfoldable pub wg_get_next_record : ℕ → ℕ → Bool → State → ℕ → Option ℕ
wg_get_next_record zero fuel is_db s res = none
wg_get_next_record (suc rounds) fuel is_db s res = elim (wg_get_next_raw_record fuel is_db s res) [
  | none ↦ none
  | some next ↦
      let rest = wg_get_next_record rounds fuel is_db s next in
      if not (next == 0) && is_special_record s next then rest else some next
]

unfoldable pub wg_get_first_record : ℕ → ℕ → Bool → State → Option ℕ
wg_get_first_record rounds fuel is_db s = elim (wg_get_first_raw_record fuel is_db s) [
  | none ↦ none
  | some res ↦
      if not (res == 0) && is_special_record s res
      then wg_get_next_record rounds fuel is_db s res
      else some res
]
