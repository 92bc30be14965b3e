-- ===== src/Engine/Chunks.antt =====
-- `alloc_db_segmentchunk` and `init_db_subarea` of dballoc.c: chunks are taken from the free end of the
-- segment and never given back.
pub mod Disjoint
use wasm_cloud_computing_ben.Prelude.{ℕ, ◌+◌, ◌-◌, ◌%◌, ◌^◌, if◌then◌else◌, ltb, leb, ◌==◌, ◌&&◌}
use wasm_cloud_computing_ben.Prelude.Int.{ℤ, pos, neg}
use wasm_cloud_computing_ben.Engine.{
  Subarea, Segment, State, subarea_alignment_bytes, minimal_subarea_size, min_varlenobj_size,
}

-- `i`: what is missing to the next multiple of the alignment.
unfoldable pub padding : ℕ → ℕ
padding n =
    let i = subarea_alignment_bytes - n % subarea_alignment_bytes in
    if i == subarea_alignment_bytes then 0 else i

-- A number from 2 ^ 31 on is a negative `gint`. The padding is added behind the test of the sign, so that
-- the sum can become negative, which is less than the size of the segment.
unfoldable pub alloc_db_segmentchunk : Segment → ℕ → ℕ × Segment
alloc_db_segmentchunk g size =
    let nextfree = (g.free + size) % 2 ^ 32 in
    let padded = (nextfree + padding nextfree) % 2 ^ 32 in
    if leb (2 ^ 31) nextfree
    then (0, g)
    else if ltb padded (2 ^ 31) && leb g.size padded
    then (0, g)
    else (g.free, record g { free = padded })

-- The subarea's four numbers, for a chunk at the offset.
unfoldable pub subarea_at : ℕ → ℕ → Subarea
subarea_at segmentchunk size =
    let i = padding segmentchunk in
    let asize = size - i in
    record {
      size = size;
      offset = segmentchunk;
      alignedsize = asize - asize % min_varlenobj_size;
      alignedoffset = segmentchunk + i;
    }

unfoldable pub set_subarea : (ℕ → Subarea) → ℕ → Subarea → ℕ → Subarea
set_subarea subareas index subarea j = if j == index then subarea else subareas j

unfoldable pub init_db_subarea : State → ℕ → ℕ → ℤ × State
init_db_subarea s index size =
    if ltb size minimal_subarea_size
    then (neg 1, s)
    else let (segmentchunk, g) = alloc_db_segmentchunk s.segment size in
      if segmentchunk == 0 then (neg 2, record s { segment = g }) else (
        pos 0,
        record s {
          segment = g;
          area = record s.area {
            subarea_array = set_subarea s.area.subarea_array index (subarea_at segmentchunk size);
            last_subarea_index = index;
            freelist = 0;
          };
        },
      )
