-- ===== src/Tests/Engine.antt =====
-- A small segment with one area: the allocator on concrete inputs.
use wasm_cloud_computing_ben.Prelude.{
  ℕ, inl, ◌^◌, ◌≢◌, ◌≡◌, ◌==◌, if◌then◌else◌, true, refl, [], ◌∷◌, some, arith,
}
use wasm_cloud_computing_ben.Prelude.Int.{pos}
use wasm_cloud_computing_ben.Engine.{
  Subarea, Segment, State, dbfetch, bucket, bucket_addr, used_bytes, makespecialusedobjectsize,
}
use wasm_cloud_computing_ben.Engine.Chunks.Disjoint.{chunks, AreApart, ArePadded, chunks-AreApart}
use wasm_cloud_computing_ben.Engine.Chunks.{alloc_db_segmentchunk, padding}
use wasm_cloud_computing_ben.Engine.Fixlen.Freelist.{IsLinked, HasFree}
use wasm_cloud_computing_ben.Engine.Buckets.{wg_freebuckets_index, index_loop, below_cursize}
use wasm_cloud_computing_ben.Engine.Gints.{returned, unfinished, wg_alloc_gints}
use wasm_cloud_computing_ben.Engine.Gints.Termination.{wg_alloc_gints_ends}
use wasm_cloud_computing_ben.Engine.Gints.Victim.{AreEmpty}
use wasm_cloud_computing_ben.Engine.Release.{wg_free_object}
use wasm_cloud_computing_ben.Engine.Release.Victim.{wg_free_object-wg_alloc_gints}

-- The buckets are at 96, and the victim of 160 bytes at 2000; three objects of twelve bytes are free.
abbrev words : ℕ → ℕ
words a =
    if a == 1248
    then 2000
    else if a == 1252
    then 160
    else if a == 3000
    then 3012
    else if a == 3012
    then 3024
    else 0

abbrev small_segment : Segment
small_segment = record { memory = words; free = 4000; size = 50000 }

abbrev small_subarea : Subarea
small_subarea = record { size = 8192; offset = 3000; alignedsize = 40; alignedoffset = 3000 }

abbrev pub small_state : State
small_state = record {
  segment = small_segment;
  area = record {
    objlength = 12;
    freelist = 3000;
    last_subarea_index = 0;
    subarea_array = λ i. small_subarea;
    freebuckets = 96;
  };
}

small_requests : ArePadded small_segment (8192 ∷ 100 ∷ 90000 ∷ 8 ∷ [])
unfolding alloc_db_segmentchunk padding
small_requests = (
  (omega arith, inl (omega arith)),
  (
    (omega arith, inl (omega arith)),
    ((omega arith, inl (omega arith)), ((omega arith, inl (omega arith)), tt)),
  ),
)

-- A chunk whose end is padded to 2 ^ 31 is given out, and the free part begins at a negative offset.
padding_overflows :
    alloc_db_segmentchunk small_segment 2147479644 ≡ (4000, record small_segment { free = 2 ^ 31 })
unfolding alloc_db_segmentchunk padding
padding_overflows = refl

chunks-AreApart_example : AreApart 4000 50000 (chunks small_segment (8192 ∷ 100 ∷ 90000 ∷ 8 ∷ []))
chunks-AreApart_example =
    chunks-AreApart (8192 ∷ 100 ∷ 90000 ∷ 8 ∷ []) small_segment (omega arith, refl, omega arith)
      small_requests

small_state-AreEmpty : AreEmpty small_state
unfolding bucket dbfetch bucket_addr
small_state-AreEmpty i h = ground arith

wg_free_object-wg_alloc_gints_example :
    (s1 : State) × (wg_alloc_gints 1 small_state 5 ≡ returned 2000 s1)
    × (s2 : State) × (wg_free_object true s1 2000 ≡ some (pos 0, s2))
    × (bucket s2 288 ≡ 2000)
    × (bucket s2 289 ≡ 160)
    × (dbfetch s2 2000 ≡ makespecialusedobjectsize 160)
unfolding bucket dbfetch bucket_addr used_bytes
wg_free_object-wg_alloc_gints_example =
    wg_free_object-wg_alloc_gints 0 small_state 5 small_state-AreEmpty (omega arith) refl
      (omega arith) (omega arith)

pub small_state-HasFree : HasFree small_state (3000 ∷ 3012 ∷ 3024 ∷ [])
unfolding IsLinked
small_state-HasFree = (refl, omega arith, (refl, omega arith, (refl, omega arith, refl)))

-- A size in a larger bucket: 600 bytes are in the bucket of 512 to 1023.
index_600 : wg_freebuckets_index 600 ≡ pos 257
unfolding wg_freebuckets_index index_loop below_cursize
index_600 = refl

wg_alloc_gints_ends_example : wg_alloc_gints 64 small_state 5 ≢ unfinished
wg_alloc_gints_ends_example =
    wg_alloc_gints_ends 64 small_state 5 (omega arith) (omega arith) (omega arith)
