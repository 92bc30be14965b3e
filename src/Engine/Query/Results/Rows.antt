-- ===== src/Engine/Query/Results/Rows.antt =====
-- The rows of a set of results of workloads/no_sql_db/wasm-src/dbquery.c as a list.
use wasm_cloud_computing_ben.Prelude.{
  ℕ, zero, suc, ◌+◌, ◌-◌, ◌*◌, ◌≤◌, ◌<◌, ◌≡◌, ◌≢◌, ◌⊎◌, inl, inr, refl, sym, Bool, false,
  if◌then◌else◌, leb, ◌==◌, ◌&&◌, List, [], ◌∷◌, ◌++◌, arith, length, length-append, get_or, All,
  Bool-cases,
}
use wasm_cloud_computing_ben.Prelude.Int.{pos, neg}
use wasm_cloud_computing_ben.Engine.Query.Results.{
  ResultSet, empty_resultset, add_page, write_row, append_resultset,
}

-- The rows of the pages one after the other are those of the list, and 0 behind them.
pub record HasRows (set : ResultSet) (xs : List ℕ) : Type 0 where
  pub filled : 63 * set.page_count + set.write_pidx ≡ length xs + 63
  pub within : set.write_pidx ≤ 63
  pub counted : set.res_count ≡ length xs
  pub row : (k i : ℕ) → k < set.page_count → i < 63 → set.rows k i ≡ get_or xs (63 * k + i) 0
  pub nonzero : All (λ x. x ≢ 0) xs

get_or-append :
    (xs : List ℕ) (x r : ℕ)
    → get_or (xs ++ (x ∷ [])) r 0 ≡ (if r == length xs then x else get_or xs r 0)
get_or-append [] x zero = ground arith
get_or-append [] x (suc r) = ground arith
get_or-append (y ∷ xs) x zero = ground arith
get_or-append (y ∷ xs) x (suc r) = ground (arith, get_or-append xs x r)

pub get_or-beyond : (xs : List ℕ) (r : ℕ) → length xs ≤ r → get_or xs r 0 ≡ 0
get_or-beyond [] r h = refl
get_or-beyond (x ∷ xs) zero h = absurd (omega arith)
get_or-beyond (x ∷ xs) (suc r) h = get_or-beyond xs r (omega arith)

All-append : (xs : List ℕ) (x : ℕ) → All (λ x. x ≢ 0) xs → x ≢ 0 → All (λ x. x ≢ 0) (xs ++ (x ∷ []))
All-append [] x all h = (h, tt)
All-append (y ∷ xs) x (hy, all) h = (hy, All-append xs x all h)

pub empty_resultset-HasRows : HasRows empty_resultset []
unfolding empty_resultset
empty_resultset-HasRows = record {
  filled = refl;
  within = omega arith;
  counted = refl;
  row = λ k i hk hi. absurd (omega arith);
  nonzero = tt;
}

add_page-HasRows :
    (set : ResultSet) (xs : List ℕ)
    → HasRows set xs
    → set.write_pidx ≡ 63
    → HasRows (add_page set) xs
unfolding add_page
add_page-HasRows set xs has full = record {
  filled = let f = has.filled in omega arith;
  within = omega arith;
  counted = has.counted;
  row = λ k i hk hi. elim (Bool-cases (k == set.page_count)) [
    | inl new ↦
        let f = has.filled in
        let e : k ≡ set.page_count = ground arith in
        rw (new) (sym (get_or-beyond xs (63 * k + i) (omega arith)))
    | inr old ↦ let lower : k < set.page_count = ground arith in rw (old) (has.row k i lower hi)
  ];
  nonzero = has.nonzero;
}

placed :
    (l k i n p : ℕ)
    → 63 * n + p ≡ l + 63
    → 0 < n
    → p < 63
    → k < n
    → i < 63
    → (k == n - 1 && i == p) ≡ (63 * k + i == l)
placed l k i n p f some_page room hk hi = ground arith

write_row-HasRows :
    (set : ResultSet) (xs : List ℕ) (x : ℕ)
    → HasRows set xs
    → x ≢ 0
    → set.write_pidx < 63
    → 0 < set.page_count
    → HasRows (write_row set x) (xs ++ (x ∷ []))
unfolding write_row
write_row-HasRows set xs x has h room some_page = record {
  filled = let f = has.filled in omega (arith, length-append xs (x ∷ []));
  within = omega arith;
  counted = let c = has.counted in omega (arith, length-append xs (x ∷ []));
  row = λ k i hk hi.
      let f = has.filled in
      let old = has.row k i hk hi in
      let new = get_or-append xs x (63 * k + i) in
      let same : (k == set.page_count - 1 && i == set.write_pidx) ≡ (63 * k + i == length xs) =
        placed (length xs) k i set.page_count set.write_pidx f some_page room hk hi in
      rw (same, old) (sym new);
  nonzero = All-append xs x has.nonzero h;
}

-- A row that is not 0 is added behind the others, if the memory pool gives a page where one is needed;
-- if it does not, the set is as before.
pub append_resultset-HasRows :
    (set : ResultSet) (xs : List ℕ) (x : ℕ) (has_page : Bool)
    → HasRows set xs
    → x ≢ 0
    → ((set' : ResultSet) × (append_resultset has_page set x ≡ (pos 0, set'))
        × HasRows set' (xs ++ (x ∷ [])))
      ⊎ ((has_page ≡ false) × (append_resultset has_page set x ≡ (neg 1, set)))
unfolding append_resultset add_page
append_resultset-HasRows set xs x has_page has h = elim (Bool-cases (leb 63 set.write_pidx)) [
  | inr room ↦
      let below : set.write_pidx < 63 = ground arith in
      let f = has.filled in
      inl (
        write_row set x,
        rw (append_resultset, room) refl,
        write_row-HasRows set xs x has h below (omega arith),
      )
  | inl full ↦ elim (Bool-cases has_page) [
    | inr refused ↦ inr (refused, rw (append_resultset, full, refused) refl)
    | inl given ↦
        let w = has.within in
        let at_end : set.write_pidx ≡ 63 = ground arith in
        inl (
          write_row (add_page set) x,
          rw (append_resultset, full, given) refl,
          write_row-HasRows (add_page set) xs x (add_page-HasRows set xs has at_end) h (omega arith)
              (omega arith),
        )
  ]
]
