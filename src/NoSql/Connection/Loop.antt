-- ===== src/NoSql/Connection/Loop.antt =====
-- The loop of a connection of the database server: it answers its one request again and again.
use wasm_cloud_computing_ben.Prelude.{
  ℕ, zero, suc, ◌+◌, ◌-◌, ◌≤◌, ◌≡◌, refl, Bool, some, if◌then◌else◌, arith, ◌⊎◌, inl, inr,
}
use wasm_cloud_computing_ben.Prelude.Int.{pos}
use wasm_cloud_computing_ben.Prelude.Text.{
  atoi, sign_and_digits, signed_value, digits_value, is_digit,
}
use wasm_cloud_computing_ben.NoSql.Db.{Db}
use wasm_cloud_computing_ben.NoSql.Work.{work, Outcome, done, unfinished}
use wasm_cloud_computing_ben.NoSql.Connection.{
  running, exited, received, index_of, round, run_loop, run, start, value_at,
}

-- A digit stands for itself, every other character for 0.
abbrev pub digit_of : ℕ → ℕ
digit_of c = if is_digit c then c - b'0' else 0

index_of_lem : (c : ℕ) → index_of c ≡ some (pos (digit_of c))
unfolding index_of atoi sign_and_digits signed_value digits_value
index_of_lem c = ground arith

digit_of-le : (c : ℕ) → digit_of c ≤ 9
digit_of-le c = ground arith

Outcome-cases :
    {S : Type 0} (o : Outcome S)
    → (o ≡ Outcome.exited) ⊎ (o ≡ unfinished) ⊎ ((n : ℕ) × (s : S) × (o ≡ done n s))
Outcome-cases (done n s) = inr (inr (n, s, refl))
Outcome-cases Outcome.exited = inl refl
Outcome-cases unfinished = inr (inl refl)

module _ (d : Db) (fuel : d.Store → ℕ) where
  open d use {Store}

  run_loop-goes_on :
      (rounds k : ℕ) (writes : ℕ → Bool) (s : Store) (w v : ℕ)
      → v ≤ 9
      → let end = (run_loop d fuel rounds k writes s (pos w) (pos v)).1 in
        (end ≡ running) ⊎ (end ≡ exited)
  unfolding run_loop round
  run_loop-goes_on zero k writes s w v h = inl refl
  run_loop-goes_on (suc rounds) k writes s w v h =
      elim (Outcome-cases (work d (fuel s) s w (value_at (pos v)))) [
        | inl e ↦ ground arith
        | inr (inl e) ↦ ground arith
        | inr (inr (n, s', e)) ↦ ground (arith, run_loop-goes_on rounds (k + 1) writes s' w v h)
      ]

  -- Once a request is read, whatever its two bytes are and whether the writes succeed, the thread never
  -- leaves its loop by itself: after any number of rounds it is still in the loop, or the process has
  -- called `exit`.
  pub run-goes_on :
      (rounds : ℕ) (writes : ℕ → Bool) (s : Store) (b0 b1 : ℕ)
      → let end = (run d fuel rounds writes s (received b0 b1)).1 in
        (end ≡ running) ⊎ (end ≡ exited)
  unfolding run start
  run-goes_on rounds writes s b0 b1 =
      rw (index_of_lem b0, index_of_lem b1, start)
        (run_loop-goes_on rounds 0 writes s (digit_of b0) (digit_of b1) (digit_of-le b1))
