-- ===== src/Engine/Query/Join/Meet.antt =====
-- What the intersection of two sets of results of workloads/no_sql_db/wasm-src/dbquery.c returns.
use wasm_cloud_computing_ben.Prelude.{
  ℕ, ◌*◌, ◌%◌, ◌^◌, ◌≤◌, ◌<◌, ◌≡◌, ◌⊎◌, inl, inr, refl, ap, ◌∙◌, Bool, true, false, List, arith,
  length, Bool-cases, ◌||◌, ◌&&◌, ltb, leb, none, some,
}
use wasm_cloud_computing_ben.Engine.Query.Results.{ResultSet, empty_resultset, create_resultset}
use wasm_cloud_computing_ben.Engine.Query.Results.Rows.{HasRows}
use wasm_cloud_computing_ben.Engine.Query.Join.{
  Loop, left, is_small, join, returned, intersect_resultset,
}
use wasm_cloud_computing_ben.Engine.Query.Join.Strategies.{
  IsOverfull, IsMeet, nested_loop-HasRows, has_both, hash_join-IsMeet,
}
use wasm_cloud_computing_ben.Engine.Query.Join.Walk.{has_row, keep}

not_small :
    (product : ℕ)
    → (ltb (product % 2 ^ 32) 200 || leb (2 ^ 31) (product % 2 ^ 32)) ≡ false
    → 200 ≤ product
not_small product h = ground arith

swapped : (xs ys : List ℕ) (l : Loop ResultSet) → IsMeet ys xs l → IsMeet xs ys l
swapped xs ys l (out, zs, e, has, both) =
    (out, zs, e, has, λ x. both x ∙ and_comm (has_row ys x) (has_row xs x))
  where
    and_comm : (a b : Bool) → (a && b) ≡ (b && a)
    and_comm a b = ground arith

join-IsMeet :
    (fuel : ℕ) (pages : ℕ → Bool) (seta setb : ResultSet) (xs ys : List ℕ)
    → ((k : ℕ) → pages k ≡ true)
    → HasRows seta xs
    → HasRows setb ys
    → length xs < fuel
    → length ys < fuel
    → length xs ≤ 2147483645
    → length ys ≤ 2147483645
    → IsMeet xs ys (join fuel pages true true seta setb empty_resultset)
      ⊎ ((200 ≤ length xs * length ys)
          × (IsOverfull xs ⊎ IsOverfull ys)
          × (join fuel pages true true seta setb empty_resultset ≡ left empty_resultset))
unfolding join is_small
join-IsMeet fuel pages seta setb xs ys given hasa hasb enougha enoughb fitsa fitsb =
    elim (Bool-cases (is_small seta.res_count setb.res_count)) [
      | inl small ↦
          let (out, e, has) =
            nested_loop-HasRows fuel pages seta setb xs ys given hasa hasb enougha enoughb in
          rw small (
            inl (
              out,
              keep (has_row ys) xs,
              e,
              has,
              has_both (has_row ys) xs ys hasa.nonzero (λ x some_row. refl),
            ))
      | inr large ↦
          let many : 200 ≤ length xs * length ys =
            rw (← hasa.counted, ← hasb.counted)
              (not_small (seta.res_count * setb.res_count) large) in
          elim (Bool-cases (ltb setb.res_count seta.res_count)) [
            | inl second ↦
                rw (large, second)
                  (elim (hash_join-IsMeet fuel pages setb seta ys xs given hasb hasa enoughb enougha
                    fitsb) [
                      | inl met ↦ inl met
                      | inr (full, refused) ↦ inr (many, inr full, refused)
                    ])
            | inr first ↦
                rw (large, first)
                  (elim (hash_join-IsMeet fuel pages seta setb xs ys given hasa hasb enougha enoughb
                    fitsa) [
                      | inl met ↦ inl (swapped xs ys _ met)
                      | inr (full, refused) ↦ inr (many, inl full, refused)
                    ])
          ]
    ]

-- The intersection of two sets of results, with memory for all it allocates, is a new set whose rows are
-- those that both have; or there are so many rows that a table of words is used, and a row of the set that fills
-- it finds no slot in the table to which the rows before it were added, which gives NULL. One more round for each loop than a set has rows is enough.
pub intersect_resultset_lem :
    (fuel : ℕ) (pages : ℕ → Bool) (seta setb : ResultSet) (xs ys : List ℕ)
    → ((k : ℕ) → pages k ≡ true)
    → HasRows seta xs
    → HasRows setb ys
    → length xs < fuel
    → length ys < fuel
    → length xs ≤ 2147483645
    → length ys ≤ 2147483645
    → ((out : ResultSet) × (zs : List ℕ) × (intersect_resultset fuel pages true true true true seta
            setb
          ≡ some (some out))
        × HasRows out zs
        × ((x : ℕ) → has_row zs x ≡ (has_row xs x && has_row ys x)))
      ⊎ ((200 ≤ length xs * length ys)
          × (IsOverfull xs ⊎ IsOverfull ys)
          × (intersect_resultset fuel pages true true true true seta setb ≡ some none))
unfolding intersect_resultset create_resultset returned
intersect_resultset_lem fuel pages seta setb xs ys given hasa hasb enougha enoughb fitsa fitsb =
    elim (join-IsMeet fuel pages seta setb xs ys given hasa hasb enougha enoughb fitsa fitsb) [
      | inl (out, zs, e, has, both) ↦ inl (out, zs, ap returned e, has, both)
      | inr (many, full, e) ↦ inr (many, full, ap returned e)
    ]
