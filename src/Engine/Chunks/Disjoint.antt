-- ===== src/Engine/Chunks/Disjoint.antt =====
-- The chunks that `alloc_db_segmentchunk` gives out lie in the segment and apart from each other.
use wasm_cloud_computing_ben.Prelude.{
  ℕ, ◌+◌, ◌%◌, ◌^◌, ◌≤◌, ◌<◌, ◌≡◌, ◌≢◌, refl, List, [], ◌∷◌, if◌then◌else◌, ◌==◌, ◌⊎◌, ◌∙◌, inl,
  inr, Bool-cases, arith,
}
use wasm_cloud_computing_ben.Prelude.Int.{pos, neg}
use wasm_cloud_computing_ben.Engine.{Subarea, Segment, State}
use wasm_cloud_computing_ben.Engine.Chunks.{
  padding, alloc_db_segmentchunk, subarea_at, set_subarea, init_db_subarea,
}

-- `free` is a positive multiple of the alignment, and inside the segment.
abbrev pub IsSegment : Segment → Type 0
IsSegment g = (0 < g.free) × (g.free % 8 ≡ 0) × (g.free < g.size)

-- Where a chunk of the size would end is not one of the last seven numbers of a `gint`, whose padding
-- makes it negative.
abbrev pub IsPadded : Segment → ℕ → Type 0
IsPadded g n = (g.free + n < 2 ^ 32) × ((g.free + n < 2147483641) ⊎ (2147483648 ≤ g.free + n))

-- The allocator keeps the segment well formed; a chunk that is given out begins where the free part
-- began and ends before the free part that is left.
alloc_db_segmentchunk_sound :
    (g : Segment) (n : ℕ)
    → IsSegment g
    → IsPadded g n
    → IsSegment (alloc_db_segmentchunk g n).1
      × ((alloc_db_segmentchunk g n).1.size ≡ g.size)
      × ((alloc_db_segmentchunk g n).0 ≢ 0
          → ((alloc_db_segmentchunk g n).0 ≡ g.free)
            × (g.free + n ≤ (alloc_db_segmentchunk g n).1.free))
      × (g.free ≤ (alloc_db_segmentchunk g n).1.free)
unfolding alloc_db_segmentchunk padding
alloc_db_segmentchunk_sound g n w (small, inl low) = ground arith
alloc_db_segmentchunk_sound g n w (small, inr high) = ground arith

-- The chunks of a list of requests, each with its size; refused requests give none.
unfoldable pub chunks : Segment → List ℕ → List (ℕ × ℕ)
chunks g [] = []
chunks g (n ∷ ns) =
    let (offset, g') = alloc_db_segmentchunk g n in
    let rest = chunks g' ns in if offset == 0 then rest else (offset, n) ∷ rest

-- Each request finds the segment such that the end of its chunk can be padded.
abbrev pub ArePadded : Segment → List ℕ → Type 0
ArePadded g [] = Unit
ArePadded g (n ∷ ns) = IsPadded g n × ArePadded (alloc_db_segmentchunk g n).1 ns

-- The chunks are aligned, each begins at or behind the end of the one before, and all lie between the
-- two bounds.
unfoldable pub AreApart : ℕ → ℕ → List (ℕ × ℕ) → Type 0
AreApart low high [] = low ≤ high
AreApart low high ((offset, n) ∷ rest) =
    (low ≤ offset) × (offset % 8 ≡ 0) × AreApart (offset + n) high rest

AreApart-lower :
    (a b high : ℕ) (cs : List (ℕ × ℕ)) → a ≤ b → AreApart b high cs → AreApart a high cs
unfolding AreApart
AreApart-lower a b high [] h p = omega arith
AreApart-lower a b high ((o, n) ∷ cs) h (l, aligned, r) = (omega arith, aligned, r)

chunks_below-AreApart :
    (ns : List ℕ) (g : Segment) (high : ℕ)
    → g.size ≡ high
    → IsSegment g
    → ArePadded g ns
    → AreApart g.free high (chunks g ns)
unfolding AreApart chunks
chunks_below-AreApart [] g high h w fits = omega arith
chunks_below-AreApart (n ∷ ns) g high h w (fit, fits) =
    let (w', same, starts, grows) = alloc_db_segmentchunk_sound g n w fit in
    let (offset, g') = alloc_db_segmentchunk g n in
    let rest = chunks_below-AreApart ns g' high (same ∙ h) w' fits in
    elim (Bool-cases (offset == 0)) [
      | inl none ↦ rw none (AreApart-lower g.free g'.free high (chunks g' ns) grows rest)
      | inr given ↦
          let (at, ends) = starts (ground arith) in
          rw given (
            omega arith,
            omega arith,
            AreApart-lower (offset + n) g'.free high (chunks g' ns) (omega arith) rest,
          )
    ]

-- The chunks of any sequence of requests are aligned, do not overlap, and lie between the start of the
-- free part and the end of the segment, if no chunk would end, before it is padded, in the last seven
-- numbers below 2 ^ 31.
pub chunks-AreApart :
    (ns : List ℕ) (g : Segment)
    → IsSegment g
    → ArePadded g ns
    → AreApart g.free g.size (chunks g ns)
chunks-AreApart ns g w fits = chunks_below-AreApart ns g g.size refl w fits

-- A subarea is usable: its aligned part lies in its chunk, has aligned ends, and is less than 23 bytes
-- shorter than the chunk.
abbrev pub IsUsable : Subarea → Type 0
IsUsable a =
    (a.offset ≤ a.alignedoffset)
    × (a.alignedoffset % 8 ≡ 0)
    × (a.alignedsize % 16 ≡ 0)
    × (a.alignedoffset + a.alignedsize ≤ a.offset + a.size)
    × (a.size < a.alignedsize + 23)

-- The segment and the area after a subarea was made.
abbrev pub MadeSubarea : State → ℕ → ℕ → State → Type 0
MadeSubarea s index n s' =
    IsSegment s'.segment
    × IsUsable (s'.area.subarea_array index)
    × ((s'.area.subarea_array index).size ≡ n)
    × ((s'.area.subarea_array index).offset ≡ s.segment.free)
    × (s.segment.free + n ≤ s'.segment.free)
    × (s'.area.last_subarea_index ≡ index)
    × (s'.area.freelist ≡ 0)
    × ((j : ℕ) → j ≢ index → s'.area.subarea_array j ≡ s.area.subarea_array j)

-- Each outcome of `init_db_subarea` in a well-formed segment, for a chunk that ends below 2 ^ 31 - 7: a size below the minimum is refused with -1
-- and no change; otherwise it is 0 and the subarea with that index has the size, is usable, begins where
-- the free part began and ends before what is left of it, or it is -2 and no area changes. The other
-- subareas stay.
pub init_db_subarea_sound :
    (s : State) (index n : ℕ)
    → IsSegment s.segment
    → s.segment.free + n < 2147483641
    → ((n < 8192) × (init_db_subarea s index n ≡ (neg 1, s)))
      ⊎ (8192 ≤ n) × (init_db_subarea s index n ≡ (neg 2, s))
      ⊎ (8192 ≤ n)
        × ((init_db_subarea s index n).0 ≡ pos 0)
        × MadeSubarea s index n (init_db_subarea s index n).1
unfolding init_db_subarea subarea_at padding set_subarea alloc_db_segmentchunk
init_db_subarea_sound s index n w low = ground arith
