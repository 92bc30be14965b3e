-- ===== src/Engine/Query/Join/Walk.antt =====
-- The loops over the rows of a set of results of workloads/no_sql_db/wasm-src/dbquery.c as walks over a list.
use wasm_cloud_computing_ben.Prelude.{
  ℕ, zero, suc, ◌+◌, ◌<◌, ◌≡◌, ◌≢◌, inl, inr, refl, ap, sym, ◌∙◌, Bool, true, false, List, [], ◌∷◌,
  ◌++◌, arith, length, get_or, drop, drop_all, Bool-cases, ◌==◌, ◌||◌, ◌&&◌, if◌then◌else◌,
}
use std.Path.{fun_ext}
use wasm_cloud_computing_ben.Engine.Query.Results.{
  ResultSet, rewind_resultset, fetch_resultset, next_row,
}
use wasm_cloud_computing_ben.Engine.Query.Results.Rows.{HasRows, append_resultset-HasRows}
use wasm_cloud_computing_ben.Engine.Query.Results.Fetch.{
  IsAt, rewind_resultset-IsAt, rewind_resultset-HasRows, next_row-IsAt, next_row-HasRows, drop_step,
  get_or-nonzero, fetched, exhausted,
}
use wasm_cloud_computing_ben.Engine.Query.Join.{
  Loop, left, ended, resume, fetch_each, append_row, add_if, match_row,
}

unfoldable pub walk {ℓ} : {S : Type ℓ} → (ℕ → S → Loop S) → List ℕ → S → Loop S
walk body [] s = ended s
walk body (x ∷ xs) s = resume (body x s) left (walk body xs)

at_row {ℓ} :
    {S : Type ℓ} (fuel x : ℕ) (body : ℕ → S → Loop S) (set set' : ResultSet) (xs : List ℕ) (s : S)
    → (fetch_resultset set).0 ≡ x
    → (fetch_resultset set).1 ≡ set'
    → x ≢ 0
    → ((s' : S) → fetch_each fuel body set' s' ≡ walk body xs s')
    → fetch_each (suc fuel) body set s ≡ walk body (x ∷ xs) s
unfolding fetch_each walk
at_row fuel x body set set' xs s offset after nonzero rest =
    let positive : (x == 0) ≡ false = ground arith in
    rw (fetch_each, after, offset, positive) (ap (resume (body x s) left) (fun_ext rest))

at_end {ℓ} :
    {S : Type ℓ} (fuel : ℕ) (body : ℕ → S → Loop S) (set : ResultSet) (s : S)
    → (fetch_resultset set).0 ≡ 0
    → fetch_each (suc fuel) body set s ≡ ended s
unfolding fetch_each
at_end fuel body set s h = rw (fetch_each, h) refl

fetch_each_lem {ℓ} :
    {S : Type ℓ} (n fuel : ℕ) (body : ℕ → S → Loop S) (set : ResultSet) (xs : List ℕ) (r : ℕ)
    (s : S)
    → HasRows set xs
    → IsAt set r
    → length xs ≡ r + n
    → n < fuel
    → fetch_each fuel body set s ≡ walk body (drop r xs) s
unfolding walk
fetch_each_lem n zero body set xs r s has at_r e enough = absurd (omega arith)
fetch_each_lem zero (suc fuel) body set xs r s has at_r e enough =
    at_end fuel body set s (exhausted set xs r has at_r (omega arith))
    ∙ ap (λ ys. walk body ys s) (sym (drop_all r xs (omega arith)))
fetch_each_lem (suc n) (suc fuel) body set xs r s has (inr (gone, over)) e enough =
    let f = has.filled in let w = has.within in absurd (omega arith)
fetch_each_lem (suc n) (suc fuel) body set xs r s has (inl (k, here, hk, hi, e')) e enough =
    let x = get_or xs r 0 in
    let row : set.rows k set.read_pidx ≡ x =
      has.row k set.read_pidx hk hi ∙ ap (λ j. get_or xs j 0) e' in
    let nonzero = get_or-nonzero xs r has.nonzero (omega arith) in
    let z : r + 1 ≡ suc r = omega arith in
    let found = fetched set k x here row nonzero in
    at_row fuel x body set (next_row set k) (drop (suc r) xs) s (ap (λ p. p.0) found)
      (ap (λ p. p.1) found) nonzero
      (λ s'.
        fetch_each_lem n fuel body (next_row set k) xs (suc r) s' (next_row-HasRows set xs k has)
          (rw (← z) (next_row-IsAt set k r here hk hi e')) (omega arith) (omega arith))
    ∙ ap (λ ys. walk body ys s) (sym (drop_step xs r (omega arith)))

-- A loop from the first row of a set of results runs its body on each row in order; one more round than
-- there are rows is enough.
pub fetch_each-rewind_resultset {ℓ} :
    {S : Type ℓ} (set : ResultSet) (xs : List ℕ) (fuel : ℕ) (body : ℕ → S → Loop S) (s : S)
    → HasRows set xs
    → length xs < fuel
    → fetch_each fuel body (rewind_resultset set) s ≡ walk body xs s
fetch_each-rewind_resultset set xs fuel body s has enough =
    fetch_each_lem (length xs) fuel body (rewind_resultset set) xs 0 s
      (rewind_resultset-HasRows set xs has) (rewind_resultset-IsAt set) (omega arith) enough

unfoldable pub has_row : List ℕ → ℕ → Bool
has_row [] x = false
has_row (y ∷ ys) x = x == y || has_row ys x

unfoldable pub keep : (ℕ → Bool) → List ℕ → List ℕ
keep test [] = []
keep test (x ∷ xs) = if test x then x ∷ keep test xs else keep test xs

pub has_row-keep :
    (test : ℕ → Bool) (xs : List ℕ) (x : ℕ) → has_row (keep test xs) x ≡ (has_row xs x && test x)
unfolding has_row keep
has_row-keep test [] x = refl
has_row-keep test (y ∷ ys) x = elim (Bool-cases (x == y)) [
  | inl same ↦ let e : x ≡ y = ground arith in ground (arith, has_row-keep test ys x, ap test e)
  | inr differs ↦ ground (arith, has_row-keep test ys x)
]

-- The inner loop of the intersection adds the row that it looks for just if the list has it.
pub walk-match_row :
    (pages : ℕ → Bool) (out : ResultSet) (ys : List ℕ) (x : ℕ)
    → resume (walk (match_row pages out x) ys (ended out)) (λ l. l) (λ l. l)
      ≡ add_if (has_row ys) pages x out
unfolding walk match_row has_row add_if resume
walk-match_row pages out [] x = refl
walk-match_row pages out (y ∷ ys) x = elim (Bool-cases (x == y)) [
  | inl same ↦ rw same refl
  | inr differs ↦ rw differs (walk-match_row pages out ys x)
]

pub append_row-HasRows :
    (pages : ℕ → Bool) (out : ResultSet) (zs : List ℕ) (x : ℕ)
    → ((k : ℕ) → pages k ≡ true)
    → HasRows out zs
    → x ≢ 0
    → (out' : ResultSet) × (append_row pages x out ≡ ended out') × HasRows out' (zs ++ (x ∷ []))
unfolding append_row
append_row-HasRows pages out zs x given has h =
    elim (append_resultset-HasRows out zs x true has h) [
      | inr (refused, _) ↦ absurd (ground arith)
      | inl (after, e, has') ↦ (after, rw (append_row, given out.page_count, e) refl, has')
    ]
