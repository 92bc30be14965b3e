-- ===== src/Engine/Records/Scan/Next.antt =====
-- The record that the scan of an area finds next.
use wasm_cloud_computing_ben.Prelude.{
  ℕ, suc, ◌+◌, ◌%◌, ◌≤◌, ◌<◌, ◌≡◌, refl, ◌∙◌, Bool, true, false, ltb, leb, ◌==◌, ◌||◌, some, List,
  [], ◌∷◌, ◌++◌, arith,
}
use wasm_cloud_computing_ben.Engine.{State, dbfetch, isnormalusedobject, isfreeobject}
use wasm_cloud_computing_ben.Engine.Records.Scan.{
  next_subarea, size_at, scan_round, scan, wg_get_next_raw_record, wg_get_first_raw_record,
}
use wasm_cloud_computing_ben.Engine.Records.Scan.Layout.{
  Block, used_block, free_block, victim_block, IsBlock, IsLaid, records, first_object, AreLaid,
  all_records, rounds, first_or_null,
}

-- The round behind an object, for each kind of object that follows.
scan_used :
    (f : ℕ) (s : State) (cur : ℕ) (free : Bool)
    → IsBlock s (cur + size_at s cur free) used_block
    → scan (suc f) s cur free ≡ some (cur + size_at s cur free)
unfolding scan scan_round
scan_used f s cur free block = rw (scan, scan_round, block) refl

scan_free :
    (f : ℕ) (s : State) (cur : ℕ) (free : Bool)
    → IsBlock s (cur + size_at s cur free) free_block
    → scan (suc f) s cur free ≡ scan f s (cur + size_at s cur free) true
unfolding scan scan_round isnormalusedobject isfreeobject
scan_free f s cur free block = ground arith

scan_victim :
    (f : ℕ) (s : State) (cur : ℕ) (free : Bool)
    → IsBlock s (cur + size_at s cur free) victim_block
    → scan (suc f) s cur free ≡ scan f s (cur + size_at s cur free) false
unfolding scan scan_round isnormalusedobject isfreeobject
scan_victim f s cur free (head, second) = ground arith

scan_end :
    (s : State) (cur i : ℕ) (free : Bool)
    → IsLaid s i (cur + size_at s cur free) []
    → scan_round s cur free ≡ next_subarea s i
unfolding scan_round isnormalusedobject isfreeobject IsLaid
scan_end s cur i free (head, second, inside) =
    let not_normal : (dbfetch s (cur + size_at s cur free) % 2 == 0) ≡ false = ground arith in
    let not_free : (dbfetch s (cur + size_at s cur free) % 4 == 1) ≡ false = ground arith in
    let not_victim : (dbfetch s (cur + size_at s cur free + 4) == 1) ≡ false = ground arith in
    rw (not_normal, not_free, not_victim, inside) refl

scan_last :
    (f : ℕ) (s : State) (cur i : ℕ) (free : Bool)
    → IsLaid s i (cur + size_at s cur free) []
    → s.area.last_subarea_index < i + 1
    → scan (suc f) s cur free ≡ some 0
unfolding scan next_subarea
scan_last f s cur i free end last =
    let over : ltb s.area.last_subarea_index (i + 1) ≡ true = ground arith in
    rw (scan, scan_end s cur i free end, next_subarea, over) refl

scan_next :
    (f : ℕ) (s : State) (cur i : ℕ) (free : Bool)
    → IsLaid s i (cur + size_at s cur free) []
    → i + 1 ≤ s.area.last_subarea_index
    → i + 1 < 64
    → scan (suc f) s cur free ≡ scan f s (s.area.subarea_array (i + 1)).alignedoffset false
unfolding scan next_subarea
scan_next f s cur i free end more inside =
    let going : (ltb s.area.last_subarea_index (i + 1) || leb 64 (i + 1)) ≡ false = ground arith in
    rw (scan, scan_end s cur i free end, next_subarea, going) refl

scan_lem :
    (bs : List Block) (rest : List (List Block)) (f : ℕ) (s : State) (cur i : ℕ) (free : Bool)
    → IsLaid s i (cur + size_at s cur free) bs
    → AreLaid s (i + 1) rest
    → scan (rounds f bs rest) s cur free
      ≡ some (first_or_null (records s (cur + size_at s cur free) bs ++ all_records s (i + 1) rest))
unfolding IsLaid records rounds AreLaid all_records first_or_null first_object
scan_lem (used_block ∷ bs) rest f s cur i free (block, laid) areas =
    scan_used (rounds f bs rest) s cur free block
scan_lem (free_block ∷ bs) rest f s cur i free (block, laid) areas =
    scan_free (rounds f bs rest) s cur free block
    ∙ scan_lem bs rest f s (cur + size_at s cur free) i true laid areas
scan_lem (victim_block ∷ bs) rest f s cur i free (block, laid) areas =
    scan_victim (rounds f bs rest) s cur free block
    ∙ scan_lem bs rest f s (cur + size_at s cur free) i false laid areas
scan_lem [] [] f s cur i free end last = scan_last f s cur i free end last
scan_lem [] (bs ∷ rest) f s cur i free end (more, inside, laid, areas) =
    scan_next (rounds f bs rest) s cur i free end more inside
    ∙ scan_lem bs rest f s (s.area.subarea_array (i + 1)).alignedoffset (i + 1) false laid areas

-- In an area whose subareas hold objects one behind the other between their markers, and with a round for
-- each object and subarea: behind an object in use, `wg_get_next_raw_record` returns the next record of its
-- subarea, or else the first record of the subareas behind it, or NULL. Free objects, the designated
-- victim and markers are passed over.
pub wg_get_next_raw_record_lem :
    (bs : List Block) (rest : List (List Block)) (spare : ℕ) (s : State) (record_offset i : ℕ)
    → isfreeobject (dbfetch s record_offset) ≡ false
    → IsLaid s i (record_offset + size_at s record_offset false) bs
    → AreLaid s (i + 1) rest
    → wg_get_next_raw_record (rounds spare bs rest) true s record_offset
      ≡ some (
          first_or_null (
            records s (record_offset + size_at s record_offset false) bs
            ++ all_records s (i + 1) rest))
unfolding wg_get_next_raw_record first_or_null
wg_get_next_raw_record_lem bs rest spare s record_offset i in_use laid areas =
    rw (wg_get_next_raw_record, in_use) (scan_lem bs rest spare s record_offset i false laid areas)

-- The first record of an area that is laid out so, or NULL.
wg_get_first_raw_record_lem :
    (bs : List Block) (rest : List (List Block)) (spare : ℕ) (s : State)
    → isfreeobject (dbfetch s (s.area.subarea_array 0).alignedoffset) ≡ false
    → AreLaid s 0 (bs ∷ rest)
    → wg_get_first_raw_record (rounds spare bs rest) true s
      ≡ some (first_or_null (all_records s 0 (bs ∷ rest)))
unfolding wg_get_first_raw_record AreLaid all_records first_object
wg_get_first_raw_record_lem bs rest spare s in_use (some_area, inside, laid, areas) =
    wg_get_next_raw_record_lem bs rest spare s (s.area.subarea_array 0).alignedoffset 0 in_use laid
      areas
