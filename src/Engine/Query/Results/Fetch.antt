-- ===== src/Engine/Query/Results/Fetch.antt =====
-- The reading of the sets of results of workloads/no_sql_db/wasm-src/dbquery.c, from their first row.
use wasm_cloud_computing_ben.Prelude.{
  ℕ, zero, suc, ◌+◌, ◌*◌, ◌≤◌, ◌<◌, ◌≡◌, ◌≢◌, ◌⊎◌, inl, inr, refl, ap, sym, ◌∙◌, true, false,
  if◌then◌else◌, ltb, leb, ◌==◌, Option, none, some, List, [], ◌∷◌, ◌++◌, arith, length, get_or,
  drop, drop_all, All, Bool-cases,
}
use wasm_cloud_computing_ben.Engine.Query.Results.Rows.{
  HasRows, append_resultset-HasRows, empty_resultset-HasRows, get_or-beyond,
}
use mathlib.Core.List.{append-nil, append_assoc}
use wasm_cloud_computing_ben.Prelude.Int.{pos, eqz}
use wasm_cloud_computing_ben.Engine.Query.Results.{
  ResultSet, empty_resultset, create_resultset, rewind_resultset, append_resultset, next_row,
  fetch_page, fetch_resultset, fetch_loop,
}

-- The read cursor stands at row `r`, or behind the last page.
abbrev pub IsAt : ResultSet → ℕ → Type 0
IsAt set r =
    ((k : ℕ) × (set.read_page ≡ some k)
      × (k < set.page_count)
      × (set.read_pidx < 63)
      × (63 * k + set.read_pidx ≡ r))
    ⊎ ((set.read_page ≡ none) × (63 * set.page_count ≤ r))

pub rewind_resultset-IsAt : (set : ResultSet) → IsAt (rewind_resultset set) 0
unfolding rewind_resultset
rewind_resultset-IsAt set = elim (Bool-cases (set.page_count == 0)) [
  | inl none_yet ↦ inr (rw none_yet refl, ground arith)
  | inr some_page ↦ inl (0, rw some_page refl, ground arith, omega arith, refl)
]

pub rewind_resultset-HasRows :
    (set : ResultSet) (xs : List ℕ) → HasRows set xs → HasRows (rewind_resultset set) xs
unfolding rewind_resultset
rewind_resultset-HasRows set xs has = record {
  filled = has.filled;
  within = has.within;
  counted = has.counted;
  row = has.row;
  nonzero = has.nonzero;
}

pub next_row-IsAt :
    (set : ResultSet) (k r : ℕ)
    → set.read_page ≡ some k
    → k < set.page_count
    → set.read_pidx < 63
    → 63 * k + set.read_pidx ≡ r
    → IsAt (next_row set k) (r + 1)
unfolding next_row
next_row-IsAt set k r here hk hi e = elim (Bool-cases (leb 63 (set.read_pidx + 1))) [
  | inr within ↦ rw within (inl (k, here, hk, ground arith, omega arith))
  | inl over ↦
      let last : set.read_pidx ≡ 62 = ground arith in
      elim (Bool-cases (ltb (k + 1) set.page_count)) [
        | inl more ↦ rw (over, more) (inl (k + 1, refl, ground arith, omega arith, omega arith))
        | inr no_more ↦
            let is_last : set.page_count ≤ k + 1 = ground arith in
            rw (over, no_more) (inr (refl, omega arith))
      ]
]

pub next_row-HasRows :
    (set : ResultSet) (xs : List ℕ) (k : ℕ) → HasRows set xs → HasRows (next_row set k) xs
unfolding next_row
next_row-HasRows set xs k has = elim (Bool-cases (leb 63 (set.read_pidx + 1))) [
  | inl over ↦ rw over (record {
    filled = has.filled;
    within = has.within;
    counted = has.counted;
    row = has.row;
    nonzero = has.nonzero;
  })
  | inr below ↦ rw below (record {
    filled = has.filled;
    within = has.within;
    counted = has.counted;
    row = has.row;
    nonzero = has.nonzero;
  })
]

pub drop_step : (xs : List ℕ) (r : ℕ) → r < length xs → drop r xs ≡ get_or xs r 0 ∷ drop (suc r) xs
drop_step [] r h = absurd (omega arith)
drop_step (x ∷ xs) zero h = drop_none xs x
  where
    drop_none : (xs : List ℕ) (x : ℕ) → x ∷ xs ≡ x ∷ drop 0 xs
    drop_none xs x = refl
drop_step (x ∷ xs) (suc r) h = drop_step xs r (omega arith)

pub get_or-nonzero : (xs : List ℕ) (r : ℕ) → All (λ x. x ≢ 0) xs → r < length xs → get_or xs r 0 ≢ 0
get_or-nonzero [] r all h = absurd (omega arith)
get_or-nonzero (x ∷ xs) zero (hx, all) h = hx
get_or-nonzero (x ∷ xs) (suc r) (hx, all) h = get_or-nonzero xs r all (omega arith)

pub fetched :
    (set : ResultSet) (k x : ℕ)
    → set.read_page ≡ some k
    → set.rows k set.read_pidx ≡ x
    → x ≢ 0
    → fetch_resultset set ≡ (x, next_row set k)
unfolding fetch_resultset fetch_page
fetched set k x here row nonzero =
    let positive : (x == 0) ≡ false = ground arith in
    ap (fetch_page set) here ∙ rw (fetch_page, row, positive) refl

pub exhausted :
    (set : ResultSet) (xs : List ℕ) (r : ℕ)
    → HasRows set xs
    → IsAt set r
    → length xs ≤ r
    → (fetch_resultset set).0 ≡ 0
unfolding fetch_resultset fetch_page
exhausted set xs r has (inr (gone, _)) beyond = rw (fetch_resultset, gone) refl
exhausted set xs r has (inl (k, here, hk, hi, e)) beyond =
    let row : set.rows k set.read_pidx ≡ 0 =
      has.row k set.read_pidx hk hi ∙ get_or-beyond xs (63 * k + set.read_pidx) (omega arith) in
    ap (λ p. (fetch_page set p).0) here ∙ rw row refl

ends_loop :
    (fuel : ℕ) (set : ResultSet) → (fetch_resultset set).0 ≡ 0 → fetch_loop (suc fuel) set ≡ some []
unfolding fetch_loop
ends_loop fuel set h = rw (fetch_loop, h) refl

goes_on :
    (fuel x : ℕ) (set set' : ResultSet) (offsets : List ℕ)
    → (fetch_resultset set).0 ≡ x
    → (fetch_resultset set).1 ≡ set'
    → x ≢ 0
    → fetch_loop fuel set' ≡ some offsets
    → fetch_loop (suc fuel) set ≡ some (x ∷ offsets)
unfolding fetch_loop
goes_on fuel x set set' offsets offset after nonzero rest =
    let positive : (x == 0) ≡ false = ground arith in
    rw (fetch_loop, after, rest, offset, positive) refl

fetch_loop_lem :
    (n fuel : ℕ) (set : ResultSet) (xs : List ℕ) (r : ℕ)
    → HasRows set xs
    → IsAt set r
    → length xs ≡ r + n
    → n < fuel
    → fetch_loop fuel set ≡ some (drop r xs)
fetch_loop_lem n zero set xs r has at_r e enough = absurd (omega arith)
fetch_loop_lem zero (suc fuel) set xs r has at_r e enough =
    ends_loop fuel set (exhausted set xs r has at_r (omega arith))
    ∙ ap some (sym (drop_all r xs (omega arith)))
fetch_loop_lem (suc n) (suc fuel) set xs r has (inr (gone, over)) e enough =
    let f = has.filled in let w = has.within in absurd (omega arith)
fetch_loop_lem (suc n) (suc fuel) set xs r has (inl (k, here, hk, hi, e')) e enough =
    let x = get_or xs r 0 in
    let row : set.rows k set.read_pidx ≡ x =
      has.row k set.read_pidx hk hi ∙ ap (λ j. get_or xs j 0) e' in
    let nonzero = get_or-nonzero xs r has.nonzero (omega arith) in
    let z : r + 1 ≡ suc r = omega arith in
    let found = fetched set k x here row nonzero in
    goes_on fuel x set (next_row set k) (drop (suc r) xs) (ap (λ p. p.0) found)
      (ap (λ p. p.1) found) nonzero
      (fetch_loop_lem n fuel (next_row set k) xs (suc r) (next_row-HasRows set xs k has)
        (rw (← z) (next_row-IsAt set k r here hk hi e')) (omega arith) (omega arith))
    ∙ ap some (sym (drop_step xs r (omega arith)))

-- A set of results that is read from its beginning gives its rows in the order in which they were added;
-- one more round than there are rows is enough.
pub fetch_loop-rewind_resultset :
    (set : ResultSet) (xs : List ℕ) (fuel : ℕ)
    → HasRows set xs
    → length xs < fuel
    → fetch_loop fuel (rewind_resultset set) ≡ some xs
fetch_loop-rewind_resultset set xs fuel has enough =
    fetch_loop_lem (length xs) fuel (rewind_resultset set) xs 0
      (rewind_resultset-HasRows set xs has) (rewind_resultset-IsAt set) (omega arith) enough

-- The rows are added one after the other, with a page for each that needs one; `none` is an error.
unfoldable pub append_each : ResultSet → List ℕ → Option ResultSet
append_each set [] = some set
append_each set (x ∷ xs) =
    let (err, set') = append_resultset true set x in
    let rest = append_each set' xs in if eqz err (pos 0) then rest else none

append_each-HasRows :
    (set : ResultSet) (xs ys : List ℕ)
    → HasRows set xs
    → All (λ x. x ≢ 0) ys
    → (set' : ResultSet) × (append_each set ys ≡ some set') × HasRows set' (xs ++ ys)
unfolding append_each
append_each-HasRows set xs [] has all = (set, refl, rw (append-nil xs) has)
append_each-HasRows set xs (y ∷ ys) has (hy, all) =
    elim (append_resultset-HasRows set xs y true has hy) [
      | inr (refused, _) ↦ absurd (ground arith)
      | inl (after, e, has') ↦
          let (last, e', has'') = append_each-HasRows after (xs ++ (y ∷ [])) ys has' all in
          (last, rw (append_each, e) e', rw (← append_assoc xs (y ∷ []) ys) has'')
    ]

-- Rows that are not 0, added to a new set of results one after the other with memory for every page, are
-- read from its beginning in the same order; one more round than there are rows is enough.
pub fetch_loop-append_resultset :
    (xs : List ℕ) (fuel : ℕ)
    → All (λ x. x ≢ 0) xs
    → length xs < fuel
    → (first set : ResultSet) × (create_resultset true true ≡ some first)
      × (append_each first xs ≡ some set)
      × (fetch_loop fuel (rewind_resultset set) ≡ some xs)
unfolding create_resultset
fetch_loop-append_resultset xs fuel all enough =
    let (set, added, has) = append_each-HasRows empty_resultset [] xs empty_resultset-HasRows all in
    (empty_resultset, set, refl, added, fetch_loop-rewind_resultset set xs fuel has enough)
