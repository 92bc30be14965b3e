-- ===== src/NoSql/Work/Count.antt =====
-- What `run1` counts in the engine's records.
use mathlib.Core.List.{append_assoc}
use native.Mathlib.Nat.{zero-add}
use wasm_cloud_computing_ben.Prelude.{
  ℕ, zero, suc, ◌+◌, ◌^◌, ◌<◌, ◌≡◌, ◌≢◌, refl, ap, ◌∙◌, Bool, true, Option, none, some, List, [],
  ◌∷◌, ◌++◌, if◌then◌else◌, arith, All, length, Bool-cases, inl, inr, not, ◌&&◌,
}
use wasm_cloud_computing_ben.Engine.{State, dbfetch}
use wasm_cloud_computing_ben.Engine.Compare.{Decoders}
use wasm_cloud_computing_ben.Engine.Values.{fits_smallint}
use wasm_cloud_computing_ben.Engine.Records.Atomic.{is_special_record}
use wasm_cloud_computing_ben.Engine.Records.Scan.{wg_get_first_raw_record}
use wasm_cloud_computing_ben.Engine.Records.Scan.Layout.{first_or_null}
use wasm_cloud_computing_ben.Engine.Query.Follow.{Follows}
use wasm_cloud_computing_ben.Engine.Query.Find.{first_where}
use wasm_cloud_computing_ben.Engine.Query.Ints.{has_int, wg_find_record_int_lem}
use wasm_cloud_computing_ben.NoSql.Engine.{engine_db, record_at, as_record}
use wasm_cloud_computing_ben.NoSql.Work.{count_loop, run1}

-- How many records have the integer in field 0 and are not special.
abbrev pub holds : State → ℕ → ℕ → Bool
holds s v r = not (is_special_record s r) && has_int s 0 v r

abbrev pub how_many : State → ℕ → List ℕ → ℕ
how_many s v [] = 0
how_many s v (r ∷ rs) = (if holds s v r then 1 else 0) + how_many s v rs

record_at-some : (r : ℕ) → r ≢ 0 → record_at r ≡ some r
record_at-some zero h = absurd (h refl)
record_at-some (suc r) h = refl

module _ (d : Decoders) (undefined : State → Option (ℕ × State)) (rounds fuel : ℕ) (s : State)
    (words : (a : ℕ) → dbfetch s a < 2 ^ 32) (v : ℕ) (small : v < 2 ^ 32)
    (fits : fits_smallint v ≡ true) where
  -- What the search gives at the first match of a list.
  abbrev found : List ℕ → Option (Option ℕ)
  found rs = as_record (some (first_where (holds s v) rs))

  -- The records of a scan that goes through `rs` last.
  abbrev IsScan : List ℕ → Type 0
  IsScan all =
      (wg_get_first_raw_record fuel true s ≡ some (first_or_null all))
      × Follows fuel s all
      × (length all < rounds)

  find_next :
      (xs rs : List ℕ) (r : ℕ)
      → IsScan (xs ++ (r ∷ rs))
      → (engine_db d undefined rounds fuel).find_record_int s v (some r) ≡ found rs
  find_next xs rs r (first, follows, long) =
      ap (λ p. as_record p.0)
        (wg_find_record_int_lem d s words none xs rs rounds fuel 0 v r small fits first follows
          long).1

  find_first :
      (xs rs : List ℕ) (r : ℕ)
      → IsScan (xs ++ (r ∷ rs))
      → (engine_db d undefined rounds fuel).find_record_int s v none ≡ found (xs ++ (r ∷ rs))
  find_first xs rs r (first, follows, long) =
      ap (λ p. as_record p.0)
        (wg_find_record_int_lem d s words none xs rs rounds fuel 0 v r small fits first follows
          long).0

  -- The loop at the first match of the records `rs` that are left counts the matches among them.
  count_loop_lem :
      (rs xs : List ℕ) (n k : ℕ)
      → IsScan (xs ++ rs)
      → All (λ r. r ≢ 0) rs
      → length rs < n
      → count_loop (engine_db d undefined rounds fuel) n s v (found rs) k
        ≡ some (k + how_many s v rs)
  unfolding count_loop
  count_loop_lem rs xs zero k scan nonzero enough = absurd (omega arith)
  count_loop_lem [] xs (suc n) k scan nonzero enough =
      ap some (let z : k ≡ k + 0 = omega arith in z)
  count_loop_lem (r ∷ rs) xs (suc n) k scan (some_r, nonzero) enough =
      let next : IsScan ((xs ++ (r ∷ [])) ++ rs) = rw (append_assoc xs (r ∷ []) rs) scan in
      elim (Bool-cases (holds s v r)) [
        | inr miss ↦
            rw (miss, zero-add)
              (count_loop_lem rs (xs ++ (r ∷ [])) (suc n) k next nonzero (omega arith))
        | inl hit ↦
            rw (hit, record_at-some r some_r, find_next xs rs r scan)
              (count_loop_lem rs (xs ++ (r ∷ [])) n (k + 1) next nonzero (omega arith)
                ∙ ap some (
                    let z : k + 1 + how_many s v rs ≡ k + (1 + how_many s v rs) = omega arith in z))
      ]

  Follows-All : (rs : List ℕ) → Follows fuel s rs → All (λ r. r ≢ 0) rs
  unfolding Follows
  Follows-All [] follows = tt
  Follows-All (r ∷ rs) (some_r, next, follows) = (some_r, Follows-All rs follows)

-- With words of 32 bits, and the records of the engine in the order of its scan, at least one: `run1` ends, and
-- counts those that are not special and hold the integer in field 0, in a word or in an object, for an integer
-- that fits a word. One more round for each loop than there are records is enough.
pub run1_lem :
    (d : Decoders) (undefined : State → Option (ℕ × State)) (rounds fuel : ℕ) (s : State) (v : ℕ)
    (r : ℕ) (rs : List ℕ) (n : ℕ)
    → ((a : ℕ) → dbfetch s a < 2 ^ 32)
    → v < 2 ^ 32
    → fits_smallint v ≡ true
    → wg_get_first_raw_record fuel true s ≡ some r
    → Follows fuel s (r ∷ rs)
    → length (r ∷ rs) < rounds
    → length (r ∷ rs) < n
    → run1 (engine_db d undefined rounds fuel) n s v ≡ some (how_many s v (r ∷ rs))
unfolding run1 first_or_null
run1_lem d undefined rounds fuel s v r rs n words small fits first follows long enough =
    rw (find_first d undefined rounds fuel s words v small fits [] rs r (first, follows, long)) (
      count_loop_lem d undefined rounds fuel s words v small fits (r ∷ rs) [] n 0
        (first, follows, long)
        (Follows-All d undefined rounds fuel s words v small fits (r ∷ rs) follows) enough)
    ∙ ap some (let z : 0 + how_many s v (r ∷ rs) ≡ how_many s v (r ∷ rs) = omega arith in z)
