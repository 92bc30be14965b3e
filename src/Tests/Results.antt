-- ===== src/Tests/Results.antt =====
-- Two sets of results: one with the rows 11 and 12 in its first page, and one with the row 12.
use wasm_cloud_computing_ben.Prelude.{
  none, ◌≤◌, ◌⊎◌, ◌&&◌, List, ℕ, zero, suc, ◌+◌, ◌*◌, ◌<◌, ◌≡◌, refl, true, if◌then◌else◌, ◌==◌,
  some, [], ◌∷◌, get_or, arith,
}
use wasm_cloud_computing_ben.Engine.Query.Join.{intersect_resultset}
use wasm_cloud_computing_ben.Engine.Query.Join.Walk.{has_row}
use wasm_cloud_computing_ben.Engine.Query.Join.Strategies.{IsOverfull}
use wasm_cloud_computing_ben.Engine.Query.Join.Meet.{intersect_resultset_lem}
use wasm_cloud_computing_ben.Engine.Query.Results.{
  ResultSet, rewind_resultset, fetch_loop, create_resultset,
}
use wasm_cloud_computing_ben.Engine.Query.Results.Rows.{HasRows}
use wasm_cloud_computing_ben.Engine.Query.Results.Fetch.{append_each, fetch_loop-append_resultset}

abbrev two_rows : ResultSet
two_rows = record {
  rows = λ k i. if k == 0 then get_or (11 ∷ 12 ∷ []) i 0 else 0;
  page_count = 1;
  write_pidx = 2;
  read_page = some 0;
  read_pidx = 1;
  res_count = 2;
}

row_at : (k i : ℕ) → k < 1 → two_rows.rows k i ≡ get_or (11 ∷ 12 ∷ []) (63 * k + i) 0
row_at zero i h = let z : 63 * 0 + i ≡ i = omega arith in rw z refl
row_at (suc k) i h = absurd (omega arith)

two_rows-HasRows : HasRows two_rows (11 ∷ 12 ∷ [])
two_rows-HasRows = record {
  filled = refl;
  within = omega arith;
  counted = refl;
  row = λ k i hk hi. row_at k i hk;
  nonzero = (omega arith, (omega arith, tt));
}

fetch_loop-append_resultset_example :
    (first set : ResultSet) × (create_resultset true true ≡ some first)
    × (append_each first (11 ∷ 12 ∷ []) ≡ some set)
    × (fetch_loop 3 (rewind_resultset set) ≡ some (11 ∷ 12 ∷ []))
fetch_loop-append_resultset_example =
    fetch_loop-append_resultset (11 ∷ 12 ∷ []) 3 (omega arith, (omega arith, tt)) (omega arith)

abbrev one_row : ResultSet
one_row = record {
  rows = λ k i. if k == 0 then get_or (12 ∷ []) i 0 else 0;
  page_count = 1;
  write_pidx = 1;
  read_page = some 0;
  read_pidx = 0;
  res_count = 1;
}

one_row_at : (k i : ℕ) → k < 1 → one_row.rows k i ≡ get_or (12 ∷ []) (63 * k + i) 0
one_row_at zero i h = let z : 63 * 0 + i ≡ i = omega arith in rw z refl
one_row_at (suc k) i h = absurd (omega arith)

one_row-HasRows : HasRows one_row (12 ∷ [])
one_row-HasRows = record {
  filled = refl;
  within = omega arith;
  counted = refl;
  row = λ k i hk hi. one_row_at k i hk;
  nonzero = (omega arith, tt);
}

intersect_resultset_lem_example :
    ((out : ResultSet) × (zs : List ℕ) × (intersect_resultset 3
          (λ k. true)
          true
          true
          true
          true
          two_rows
          one_row
        ≡ some (some out))
      × HasRows out zs
      × ((x : ℕ) → has_row zs x ≡ (has_row (11 ∷ 12 ∷ []) x && has_row (12 ∷ []) x)))
    ⊎ ((200 ≤ 2)
        × (IsOverfull (11 ∷ 12 ∷ []) ⊎ IsOverfull (12 ∷ []))
        × (intersect_resultset 3 (λ k. true) true true true true two_rows one_row ≡ some none))
intersect_resultset_lem_example =
    intersect_resultset_lem 3 (λ k. true) two_rows one_row (11 ∷ 12 ∷ []) (12 ∷ []) (λ k. refl)
      two_rows-HasRows one_row-HasRows (omega arith) (omega arith) (omega arith) (omega arith)
