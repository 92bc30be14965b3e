-- ===== src/Engine/Query/Join.antt =====
-- The intersection of two sets of results, of workloads/no_sql_db/wasm-src/dbquery.c. The two sets are
-- different objects, and what the cursors of their reading are left at is not used afterwards. Whether the
-- memory pool gives page `k` of the new set is `pages k`.
pub mod Walk
pub mod Strategies
pub mod Meet
use wasm_cloud_computing_ben.Prelude.{
  ℕ, zero, suc, ◌*◌, ◌%◌, ◌^◌, Bool, ltb, leb, ◌==◌, ◌||◌, if◌then◌else◌, Option, none, some,
}
use wasm_cloud_computing_ben.Prelude.Int.{pos, eqz}
use wasm_cloud_computing_ben.Engine.Hash.{
  DhashTable, wg_dhash_init, wg_dhash_addkey, wg_dhash_haskey,
}
use wasm_cloud_computing_ben.Engine.Query.Results.{
  ResultSet, create_resultset, rewind_resultset, append_resultset, fetch_resultset,
}

-- How a loop ends: it ran out of fuel, its body left it, or its condition failed.
pub data Loop {ℓ} (S : Type ℓ) : Type ℓ where
  unfinished : Loop S
  left : S → Loop S
  ended : S → Loop S

unfoldable pub resume {ℓ ℓ'} :
    {S : Type ℓ} {T : Type ℓ'} → Loop S → (S → Loop T) → (S → Loop T) → Loop T
resume unfinished out on = unfinished
resume (left s) out on = out s
resume (ended s) out on = on s

-- `while((offset = fetch_resultset(db, set)))` with a body that changes `s`.
unfoldable pub fetch_each {ℓ} : {S : Type ℓ} → ℕ → (ℕ → S → Loop S) → ResultSet → S → Loop S
fetch_each zero body set s = unfinished
fetch_each (suc fuel) body set s =
    let (offset, set') = fetch_resultset set in
    let rest = resume (body offset s) left (fetch_each fuel body set') in
    if offset == 0 then ended s else rest

-- The row is added; an error leaves the loop.
unfoldable pub append_row : (ℕ → Bool) → ℕ → ResultSet → Loop ResultSet
append_row pages offset out =
    let (err, out') = append_resultset (pages out.page_count) out offset in
    if eqz err (pos 0) then ended out' else left out'

unfoldable pub add_word : ℕ → DhashTable → Loop DhashTable
add_word offset tbl =
    let (err, tbl') = wg_dhash_addkey tbl offset in
    if eqz err (pos 0) then ended tbl' else left tbl'

unfoldable pub add_if : (ℕ → Bool) → (ℕ → Bool) → ℕ → ResultSet → Loop ResultSet
add_if test pages offset out = if test offset then append_row pages offset out else ended out

-- The body of the inner loop: at the row that is looked for it is added and the loop is left.
unfoldable pub match_row : (ℕ → Bool) → ResultSet → ℕ → ℕ → Loop ResultSet → Loop (Loop ResultSet)
match_row pages out offseta offsetb s =
    if offseta == offsetb then left (append_row pages offseta out) else ended s

unfoldable pub inner_loop : ℕ → (ℕ → Bool) → ResultSet → ℕ → ResultSet → Loop ResultSet
inner_loop fuel pages setb offseta out =
    resume (fetch_each fuel (match_row pages out offseta) (rewind_resultset setb) (ended out))
      (λ l. l) (λ l. l)

unfoldable pub nested_loop : ℕ → (ℕ → Bool) → ResultSet → ResultSet → ResultSet → Loop ResultSet
nested_loop fuel pages seta setb out =
    fetch_each fuel (inner_loop fuel pages setb) (rewind_resultset seta) out

-- The words of the smaller set go into a table, in which those of the other are looked up.
unfoldable pub hash_join :
    ℕ → (ℕ → Bool) → Option DhashTable → ResultSet → ResultSet → ResultSet → Loop ResultSet
hash_join fuel pages none seta setb out = left out
hash_join fuel pages (some hasht) seta setb out =
    resume (fetch_each fuel add_word (rewind_resultset seta) hasht) (λ tbl. left out)
      (λ tbl. fetch_each fuel (add_if (wg_dhash_haskey tbl) pages) (rewind_resultset setb) out)

-- The product is a 32-bit integer with a sign.
unfoldable pub is_small : ℕ → ℕ → Bool
is_small m n = let product = m * n % 2 ^ 32 in ltb product 200 || leb (2 ^ 31) product

unfoldable pub join :
    ℕ → (ℕ → Bool) → Bool → Bool → ResultSet → ResultSet → ResultSet → Loop ResultSet
join fuel pages made_table made_keys seta setb out =
    if is_small seta.res_count setb.res_count
    then nested_loop fuel pages seta setb out
    else if ltb setb.res_count seta.res_count
    then hash_join fuel pages (wg_dhash_init made_table made_keys setb.res_count) setb seta out
    else hash_join fuel pages (wg_dhash_init made_table made_keys seta.res_count) seta setb out

-- `none` is a lack of fuel, `some none` is NULL. The Boolean arguments are whether the allocations succeed.
unfoldable pub returned : Loop ResultSet → Option (Option ResultSet)
returned unfinished = none
returned (left out) = some none
returned (ended out) = some (some out)

unfoldable pub intersect_resultset :
    ℕ → (ℕ → Bool) → Bool → Bool → Bool → Bool → ResultSet → ResultSet → Option (Option ResultSet)
intersect_resultset fuel pages made_set made_pool made_table made_keys seta setb =
    elim (create_resultset made_set made_pool) [
      | none ↦ some none
      | some out ↦ returned (join fuel pages made_table made_keys seta setb out)
    ]
