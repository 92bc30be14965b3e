-- ===== src/NoSql/Connection.antt =====
-- `run` of workloads/no_sql_db/wasm-src/no_sql_db.c: one connection.
pub mod Loop
use wasm_cloud_computing_ben.Prelude.{
  ℕ, zero, suc, ◌+◌, Bool, true, Option, none, some, List, [], ◌∷◌, ◌++◌, ltb, if◌then◌else◌,
  get_or,
}
use wasm_cloud_computing_ben.Prelude.Int.{ℤ, pos, negsuc}
use wasm_cloud_computing_ben.Prelude.Text.{atoi}
use wasm_cloud_computing_ben.NoSql.Db.{Db}
use wasm_cloud_computing_ben.NoSql.Work.{work, rec_values, Outcome, done, unfinished}

-- The one `read`: two bytes of the buffer (the second is what the buffer held, if only one came), or
-- nothing to read.
pub data Incoming : Type 0 where
  received : ℕ → ℕ → Incoming
  nothing : Incoming

pub data Event : Type 0 where
  sent : ℕ → Event
  write_failed bad_index shut_down closed : Event

-- Where the thread is after the rounds that it was given: still in its loop, returned, in a process
-- that has called `exit`, or past what C defines.
pub data Status : Type 0 where
  running returned exited crashed : Status

abbrev pub hang_up : List Event
hang_up = shut_down ∷ closed ∷ []

-- `atoi` on the string of one character.
unfoldable pub index_of : ℕ → Option ℤ
index_of c = atoi (c ∷ 0 ∷ [])

-- `value_index < 0 || value_index > 9`
abbrev pub is_bad_index : ℤ → Bool
is_bad_index (pos n) = ltb 9 n
is_bad_index (negsuc n) = true

-- The index that `work` branches on: a negative one is neither 0 nor 1.
abbrev pub work_branch : ℤ → ℕ
work_branch (pos n) = n
work_branch (negsuc n) = 2

abbrev pub value_at : ℤ → ℕ
value_at (pos n) = get_or rec_values n 0
value_at (negsuc n) = 0

module _ (d : Db) (fuel : d.Store → ℕ) where
  -- A pass through the loop's body: the events, and the database with which the loop goes on.
  unfoldable pub round : d.Store → ℤ → ℤ → Bool → List Event × Option (d.Store) × Status
  round s work_index value_index writable =
      if is_bad_index value_index
      then (bad_index ∷ hang_up, none, returned)
      else elim (work d (fuel s) s (work_branch work_index) (value_at value_index)) [
        | Outcome.exited ↦ ([], none, exited)
        | unfinished ↦ ([], none, running)
        | done result s' ↦ ((if writable then sent result else write_failed) ∷ [], some s', running)
      ]

  -- The loop, for a number of rounds; `writes k` says whether the write of round `k` succeeds. The
  -- body does not assign `bytes_read`, and the buffer stays as it is.
  unfoldable pub run_loop : ℕ → ℕ → (ℕ → Bool) → d.Store → ℤ → ℤ → List Event × Status
  run_loop zero k writes s work_index value_index = ([], running)
  run_loop (suc rounds) k writes s work_index value_index =
      let (events, next, status) = round s work_index value_index (writes k) in
      elim next [
        | none ↦ (events, status)
        | some s' ↦
            let (later, end) = run_loop rounds (k + 1) writes s' work_index value_index in
            (events ++ later, end)
      ]

  unfoldable pub start : ℕ → (ℕ → Bool) → d.Store → Option ℤ → Option ℤ → List Event × Status
  start rounds writes s none v = ([], crashed)
  start rounds writes s (some w) none = ([], crashed)
  start rounds writes s (some w) (some v) = run_loop rounds 0 writes s w v

  unfoldable pub run : ℕ → (ℕ → Bool) → d.Store → Incoming → List Event × Status
  run rounds writes s nothing = (hang_up, returned)
  run rounds writes s (received b0 b1) = start rounds writes s (index_of b0) (index_of b1)
