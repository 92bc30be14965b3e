-- ===== src/Engine/Query/Join/Strategies.antt =====
-- The two strategies of the intersection of sets of results of workloads/no_sql_db/wasm-src/dbquery.c.
use wasm_cloud_computing_ben.Prelude.{
  ℕ, some, ◌≤◌, ◌<◌, ◌≡◌, ◌≢◌, ◌⊎◌, inl, inr, refl, ap, ◌∙◌, Bool, true, false, List, [], ◌∷◌, ◌++◌,
  arith, length, All, Bool-cases, ◌==◌, ◌||◌, ◌&&◌,
}
use wasm_cloud_computing_ben.Prelude.Int.{neg}
use std.Path.{fun_ext}
use mathlib.Core.List.{append-nil, append_assoc}
use wasm_cloud_computing_ben.Engine.Hash.{
  DhashTable, wg_dhash_init, wg_dhash_addkey, wg_dhash_haskey,
}
use wasm_cloud_computing_ben.Engine.Hash.Member.{
  IsProbed, wg_dhash_haskey-wg_dhash_addkey, wg_dhash_init-IsProbed,
}
use wasm_cloud_computing_ben.Engine.Query.Results.{ResultSet, empty_resultset}
use wasm_cloud_computing_ben.Engine.Query.Results.Rows.{HasRows, empty_resultset-HasRows}
use wasm_cloud_computing_ben.Engine.Query.Join.{
  Loop, left, ended, resume, add_if, match_row, add_word, inner_loop, nested_loop, hash_join,
}
use wasm_cloud_computing_ben.Engine.Query.Join.Walk.{
  walk, fetch_each-rewind_resultset, has_row, keep, has_row-keep, walk-match_row,
  append_row-HasRows,
}

walk-add_if :
    (test pages : ℕ → Bool) (xs zs : List ℕ) (out : ResultSet)
    → ((k : ℕ) → pages k ≡ true)
    → HasRows out zs
    → All (λ x. x ≢ 0) xs
    → (out' : ResultSet) × (walk (add_if test pages) xs out ≡ ended out')
      × HasRows out' (zs ++ keep test xs)
unfolding walk add_if keep resume
walk-add_if test pages [] zs out given has all = (out, refl, rw (append-nil zs) has)
walk-add_if test pages (x ∷ xs) zs out given has (hx, all) = elim (Bool-cases (test x)) [
  | inr absent ↦
      let (last, e, has') = walk-add_if test pages xs zs out given has all in
      (last, rw absent e, rw absent has')
  | inl present ↦
      let (out', added, has') = append_row-HasRows pages out zs x given has hx in
      let (last, e, has'') = walk-add_if test pages xs (zs ++ (x ∷ [])) out' given has' all in
      (last, rw (present, added) e, rw (present, ← append_assoc zs (x ∷ []) (keep test xs)) has'')
]

-- One of the rows finds no slot in the table to which those before it were added.
abbrev pub HasNoSlot : DhashTable → List ℕ → Type 0
HasNoSlot tbl xs =
    (before : List ℕ) × (after : List ℕ) × (x : ℕ) × (full : DhashTable) × (xs
      ≡ before ++ (x ∷ after))
    × (walk add_word before tbl ≡ ended full)
    × (wg_dhash_addkey full x ≡ (neg 1, full))

-- All rows are in the table, or one of them found no slot.
walk-add_word :
    (xs : List ℕ) (tbl : DhashTable)
    → IsProbed tbl
    → All (λ x. x ≢ 0) xs
    → ((tbl' : DhashTable) × (walk add_word xs tbl ≡ ended tbl')
        × ((key : ℕ)
            → key ≢ 0
            → wg_dhash_haskey tbl' key ≡ (has_row xs key || wg_dhash_haskey tbl key)))
      ⊎ ((tbl' : DhashTable) × (walk add_word xs tbl ≡ left tbl') × HasNoSlot tbl xs)
unfolding walk add_word resume has_row
walk-add_word [] tbl probed all = inl (tbl, refl, λ key some_key. refl)
walk-add_word (x ∷ xs) tbl probed (hx, all) =
    elim (wg_dhash_haskey-wg_dhash_addkey tbl x hx probed) [
      | inr (full, _) ↦ inr (tbl, rw full refl, ([], xs, x, tbl, refl, refl, full))
      | inl (added, probed', own, others) ↦
          let tbl₁ = (wg_dhash_addkey tbl x).1 in
          elim (walk-add_word xs tbl₁ probed' all) [
            | inr (last, e, (before, after, y, stuck, split, walked, full)) ↦ inr (
              last,
              rw added e,
              (x ∷ before, after, y, stuck, ap (λ l. x ∷ l) split, rw added walked, full),
            )
            | inl (last, e, keys) ↦ inl (
              last,
              rw added e,
              λ key some_key. elim (Bool-cases (key == x)) [
                | inl same ↦
                    let at : key ≡ x = ground arith in
                    let own' : wg_dhash_haskey tbl₁ key ≡ true = rw at own in
                    rw (keys key some_key, own', same) (ground arith)
                | inr differs ↦
                    rw (keys key some_key, others key some_key (ground arith), differs) refl
              ],
            )
          ]
    ]

pub nested_loop-HasRows :
    (fuel : ℕ) (pages : ℕ → Bool) (seta setb : ResultSet) (xs ys : List ℕ)
    → ((k : ℕ) → pages k ≡ true)
    → HasRows seta xs
    → HasRows setb ys
    → length xs < fuel
    → length ys < fuel
    → (out : ResultSet) × (nested_loop fuel pages seta setb empty_resultset ≡ ended out)
      × HasRows out (keep (has_row ys) xs)
unfolding nested_loop inner_loop
nested_loop-HasRows fuel pages seta setb xs ys given hasa hasb enougha enoughb =
    let inner : inner_loop fuel pages setb ≡ add_if (has_row ys) pages = fun_ext (λ x.
      fun_ext (λ out.
        ap (λ l. resume l (λ l. l) (λ l. l))
          (fetch_each-rewind_resultset setb ys fuel (match_row pages out x) (ended out) hasb
            enoughb)
        ∙ walk-match_row pages out ys x)) in
    let (out, e, has) =
      walk-add_if (has_row ys) pages xs [] empty_resultset given empty_resultset-HasRows
        hasa.nonzero in
    (
      out,
      fetch_each-rewind_resultset seta xs fuel (inner_loop fuel pages setb) empty_resultset hasa
            enougha
          ∙ ap (λ body. walk body xs empty_resultset) inner
          ∙ e,
      has,
    )

zero_not_in : (xs : List ℕ) → All (λ x. x ≢ 0) xs → has_row xs 0 ≡ false
unfolding has_row
zero_not_in [] all = refl
zero_not_in (x ∷ xs) (hx, all) = ground (arith, zero_not_in xs all)

-- What is kept of one list by a test for the other is what both have.
pub has_both :
    (test : ℕ → Bool) (xs ys : List ℕ)
    → All (λ x. x ≢ 0) xs
    → ((x : ℕ) → x ≢ 0 → test x ≡ has_row ys x)
    → (x : ℕ) → has_row (keep test xs) x ≡ (has_row xs x && has_row ys x)
has_both test xs ys all same x = has_row-keep test xs x ∙ elim (Bool-cases (x == 0)) [
  | inl at_zero ↦
      let e : x ≡ 0 = ground arith in
      let absent : has_row xs x ≡ false = rw e (zero_not_in xs all) in rw absent refl
  | inr positive ↦ rw (same x (ground arith)) refl
]

-- The loop gives a set that has the rows of both lists.
abbrev pub IsMeet : List ℕ → List ℕ → Loop ResultSet → Type 0
IsMeet xs ys l =
    (out : ResultSet) × (zs : List ℕ) × (l ≡ ended out)
    × HasRows out zs
    × ((x : ℕ) → has_row zs x ≡ (has_row xs x && has_row ys x))

-- A new table for the rows has no slot for one of them.
abbrev pub IsOverfull : List ℕ → Type 0
IsOverfull xs =
    (tbl : DhashTable) × (wg_dhash_init true true (length xs) ≡ some tbl) × HasNoSlot tbl xs

pub hash_join-IsMeet :
    (fuel : ℕ) (pages : ℕ → Bool) (seta setb : ResultSet) (xs ys : List ℕ)
    → ((k : ℕ) → pages k ≡ true)
    → HasRows seta xs
    → HasRows setb ys
    → length xs < fuel
    → length ys < fuel
    → length xs ≤ 2147483645
    → IsMeet ys xs
        (hash_join fuel pages (wg_dhash_init true true seta.res_count) seta setb empty_resultset)
      ⊎ IsOverfull xs
        × (hash_join fuel pages (wg_dhash_init true true seta.res_count) seta setb empty_resultset
            ≡ left empty_resultset)
unfolding hash_join resume
hash_join-IsMeet fuel pages seta setb xs ys given hasa hasb enougha enoughb fits =
    let c = hasa.counted in
    let (tbl, made, probed, none_in) = wg_dhash_init-IsProbed seta.res_count (omega arith) in
    let first = fetch_each-rewind_resultset seta xs fuel add_word tbl hasa enougha in
    elim (walk-add_word xs tbl probed hasa.nonzero) [
      | inr (last, e, full) ↦ inr ((tbl, rw hasa.counted at made, full), rw (made, first, e) refl)
      | inl (last, e, keys) ↦
          let test = wg_dhash_haskey last in
          let same : (x : ℕ) → x ≢ 0 → test x ≡ has_row xs x = λ x some_row.
            let absent = none_in x some_row in keys x some_row ∙ rw absent (ground arith) in
          let (out, e', has) =
            walk-add_if test pages ys [] empty_resultset given empty_resultset-HasRows
              hasb.nonzero in
          let second =
            fetch_each-rewind_resultset setb ys fuel (add_if test pages) empty_resultset hasb
              enoughb in
          inl (
            out,
            keep test ys,
            rw (made, first, e, second, e') refl,
            has,
            has_both test ys xs hasb.nonzero same,
          )
    ]
