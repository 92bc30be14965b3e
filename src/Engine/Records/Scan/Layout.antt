-- ===== src/Engine/Records/Scan/Layout.antt =====
-- The record that the scan of an area finds next, on areas whose objects lie one behind the other.
use wasm_cloud_computing_ben.Prelude.{
  ℕ, suc, ◌+◌, ◌%◌, ◌≤◌, ◌<◌, ◌≡◌, ◌≢◌, Bool, true, false, some, List, [], ◌∷◌, ◌++◌,
}
use wasm_cloud_computing_ben.Engine.{State, dbfetch, isnormalusedobject, isfreeobject}
use wasm_cloud_computing_ben.Engine.Records.Scan.{find_subarea, size_at}

-- A record, a free object, or the designated victim.
pub data Block : Type 0 where
  used_block free_block victim_block : Block

abbrev pub is_free : Block → Bool
is_free free_block = true
is_free used_block = false
is_free victim_block = false

-- What an object of a kind has in its first two words.
abbrev pub IsBlock : State → ℕ → Block → Type 0
IsBlock s offset used_block = isnormalusedobject (dbfetch s offset) ≡ true
IsBlock s offset free_block = isfreeobject (dbfetch s offset) ≡ true
IsBlock s offset victim_block = (dbfetch s offset % 4 ≡ 3) × (dbfetch s (offset + 4) ≡ 1)

-- Objects from an offset on, each behind the one before, and the end marker of subarea `i` behind them.
unfoldable pub IsLaid : State → ℕ → ℕ → List Block → Type 0
IsLaid s i offset [] =
    (dbfetch s offset % 4 ≡ 3)
    × (dbfetch s (offset + 4) ≢ 1)
    × (find_subarea 64 s offset 0 ≡ some i)
IsLaid s i offset (b ∷ bs) =
    IsBlock s offset b × IsLaid s i (offset + size_at s offset (is_free b)) bs

-- The records among them.
unfoldable pub records : State → ℕ → List Block → List ℕ
records s offset [] = []
records s offset (used_block ∷ bs) = offset ∷ records s (offset + size_at s offset false) bs
records s offset (free_block ∷ bs) = records s (offset + size_at s offset true) bs
records s offset (victim_block ∷ bs) = records s (offset + size_at s offset false) bs

-- Behind the start marker of subarea `i`.
unfoldable pub first_object : State → ℕ → ℕ
first_object s i =
    let start = (s.area.subarea_array i).alignedoffset in start + size_at s start false

-- The subareas from index `i` on, to the last.
unfoldable pub AreLaid : State → ℕ → List (List Block) → Type 0
AreLaid s i [] = s.area.last_subarea_index < i
AreLaid s i (bs ∷ rest) =
    (i ≤ s.area.last_subarea_index)
    × (i < 64)
    × IsLaid s i (first_object s i) bs
    × AreLaid s (i + 1) rest

unfoldable pub all_records : State → ℕ → List (List Block) → List ℕ
all_records s i [] = []
all_records s i (bs ∷ rest) = records s (first_object s i) bs ++ all_records s (i + 1) rest

-- The rounds that are enough for objects and subareas, and `spare` more.
unfoldable pub rounds : ℕ → List Block → List (List Block) → ℕ
rounds spare (b ∷ bs) rest = suc (rounds spare bs rest)
rounds spare [] [] = suc spare
rounds spare [] (bs ∷ rest) = suc (rounds spare bs rest)

unfoldable pub first_or_null : List ℕ → ℕ
first_or_null [] = 0
first_or_null (x ∷ xs) = x
