-- ===== src/Engine/Query/Find.antt =====
-- The record that `wg_find_record` of workloads/no_sql_db/wasm-src/dbquery.c finds by a scan.
use wasm_cloud_computing_ben.Prelude.{
  ℕ, zero, suc, ◌<◌, ◌≡◌, refl, Bool, true, false, if◌then◌else◌, ◌==◌, ◌&&◌, not, some, List, [],
  ◌∷◌, arith, length, Bool-cases, inl, inr,
}
use wasm_cloud_computing_ben.Prelude.Int.{ℤ}
use wasm_cloud_computing_ben.Engine.{State}
use wasm_cloud_computing_ben.Engine.Records.Atomic.{is_special_record}
use wasm_cloud_computing_ben.Engine.Records.Scan.{
  wg_get_next_raw_record, wg_get_next_record, wg_get_first_raw_record, wg_get_first_record,
}
use wasm_cloud_computing_ben.Engine.Records.Scan.Layout.{first_or_null}
use wasm_cloud_computing_ben.Engine.Compare.{Decoders}
use wasm_cloud_computing_ben.Engine.Query.{QueryArg, check_arglist, find_loop, wg_find_record}
use wasm_cloud_computing_ben.Engine.Query.Follow.{Follows}

-- The first element with a property, or NULL.
abbrev pub first_where : (ℕ → Bool) → List ℕ → ℕ
first_where p [] = 0
first_where p (x ∷ xs) = if p x then x else first_where p xs

-- `wg_get_next_record` passes over the special records.
pub next_ordinary :
    (fuel rounds : ℕ) (s : State) (cur : ℕ) (rs : List ℕ)
    → wg_get_next_raw_record fuel true s cur ≡ some (first_or_null rs)
    → Follows fuel s rs
    → length rs < rounds
    → wg_get_next_record rounds fuel true s cur
      ≡ some (first_where (λ r. not (is_special_record s r)) rs)
unfolding wg_get_next_record Follows first_or_null
next_ordinary fuel zero s cur rs next follows long = absurd (omega arith)
next_ordinary fuel (suc rounds) s cur [] next follows long = rw (wg_get_next_record, next) refl
next_ordinary fuel (suc rounds) s cur (r ∷ rs) next (nonzero, after, follows) long =
    let positive : (r == 0) ≡ false = ground arith in
    elim (Bool-cases (is_special_record s r)) [
      | inl special ↦
          rw (wg_get_next_record, next, positive, special)
            (next_ordinary fuel rounds s r rs after follows (omega arith))
      | inr ordinary ↦ rw (wg_get_next_record, next, positive, ordinary) refl
    ]

first_ordinary :
    (fuel rounds : ℕ) (s : State) (rs : List ℕ)
    → wg_get_first_raw_record fuel true s ≡ some (first_or_null rs)
    → Follows fuel s rs
    → length rs < rounds
    → wg_get_first_record rounds fuel true s
      ≡ some (first_where (λ r. not (is_special_record s r)) rs)
unfolding wg_get_first_record Follows first_or_null
first_ordinary fuel rounds s [] first follows long = rw (wg_get_first_record, first) refl
first_ordinary fuel rounds s (r ∷ rs) first (nonzero, after, follows) long =
    let positive : (r == 0) ≡ false = ground arith in
    elim (Bool-cases (is_special_record s r)) [
      | inl special ↦
          rw (wg_get_first_record, first, positive, special)
            (next_ordinary fuel rounds s r rs after follows (omega arith))
      | inr ordinary ↦ rw (wg_get_first_record, first, positive, ordinary) refl
    ]

module _ (d : Decoders) where
  -- A record that is not special and meets the conditions.
  abbrev pub is_match : State → List QueryArg → ℕ → Bool
  is_match s arglist r = not (is_special_record s r) && check_arglist d s r arglist

  find_loop_lem :
      (rs : List ℕ) (n rounds fuel : ℕ) (s : State) (arglist : List QueryArg)
      → Follows fuel s rs
      → length rs < n
      → length rs < rounds
      → find_loop d n rounds fuel s arglist (first_where (λ r. not (is_special_record s r)) rs)
        ≡ some (first_where (is_match s arglist) rs)
  unfolding find_loop Follows
  find_loop_lem rs zero rounds fuel s arglist follows long enough = absurd (omega arith)
  find_loop_lem [] (suc n) rounds fuel s arglist follows long enough = refl
  find_loop_lem (r ∷ rs) (suc n) rounds fuel s arglist (nonzero, next, follows) long enough =
      let positive : (r == 0) ≡ false = ground arith in
      elim (Bool-cases (is_special_record s r)) [
        | inl special ↦
            rw special
              (find_loop_lem rs (suc n) rounds fuel s arglist follows (omega arith) (omega arith))
        | inr ordinary ↦ elim (Bool-cases (check_arglist d s r arglist)) [
          | inl met ↦ rw (ordinary, positive, met) refl
          | inr unmet ↦
              rw
                (
                  ordinary,
                  positive,
                  unmet,
                  next_ordinary fuel rounds s r rs next follows (omega arith),
                )
                (find_loop_lem rs n rounds fuel s arglist follows (omega arith) (omega arith))
        ]
      ]

  -- Behind the last record that was found, `wg_find_record` returns the first record of the scan that is
  -- not special and meets the condition, or NULL; one more round than there are records is enough.
  pub wg_find_record_lem :
      (rs : List ℕ) (rounds fuel : ℕ) (s : State) (fieldnr : ℤ) (cond value lastrecord : ℕ)
      → Follows fuel s (lastrecord ∷ rs)
      → length rs < rounds
      → wg_find_record d rounds fuel s fieldnr cond value lastrecord
        ≡ some (
            first_where
              (is_match s (record { column = fieldnr; cond = cond; value = value } ∷ []))
              rs)
  unfolding wg_find_record Follows
  wg_find_record_lem rs rounds fuel s fieldnr cond value lastrecord (nonzero, next, follows) long =
      let positive : (lastrecord == 0) ≡ false = ground arith in
      rw (wg_find_record, positive, next_ordinary fuel rounds s lastrecord rs next follows long)
        (find_loop_lem rs rounds rounds fuel s
          (record { column = fieldnr; cond = cond; value = value } ∷ []) follows long long)

  -- With no last record, it returns the first of all.
  pub wg_find_record_first :
      (rs : List ℕ) (rounds fuel : ℕ) (s : State) (fieldnr : ℤ) (cond value : ℕ)
      → wg_get_first_raw_record fuel true s ≡ some (first_or_null rs)
      → Follows fuel s rs
      → length rs < rounds
      → wg_find_record d rounds fuel s fieldnr cond value 0
        ≡ some (
            first_where
              (is_match s (record { column = fieldnr; cond = cond; value = value } ∷ []))
              rs)
  unfolding wg_find_record
  wg_find_record_first rs rounds fuel s fieldnr cond value first follows long =
      rw (wg_find_record, first_ordinary fuel rounds s rs first follows long)
        (find_loop_lem rs rounds rounds fuel s
          (record { column = fieldnr; cond = cond; value = value } ∷ []) follows long long)
