-- ===== src/Ml/Connection.antt =====
-- `run` of workloads/machine_learning/wasm-src/machine_learning.c: one connection. What the client
-- sends and whether the writes succeed are arguments, in order.
pub mod Requests
use wasm_cloud_computing_ben.Prelude.{
  ℕ, ◌+◌, Bool, none, some, List, [], ◌∷◌, ◌++◌, ◌==◌, if◌then◌else◌, take, drop, length,
}
use wasm_cloud_computing_ben.Prelude.Int.{ℤ, rem}
use wasm_cloud_computing_ben.Prelude.Text.{atoi}
use wasm_cloud_computing_ben.Ml.Dataset.{Dataset, batch_images, mnist_batch}
use wasm_cloud_computing_ben.Ml.Network.{Floats, Network, neural_network_inference}

abbrev pub batch_size : ℕ
batch_size = 20

abbrev pub buffer_size : ℕ
buffer_size = 20

-- One `read`: at least one byte and whether the `write` that follows succeeds, or the end of the
-- stream, or an error.
pub data Incoming : Type 0 where
  received : ℕ → List ℕ → Bool → Incoming
  end_of_stream read_error : Incoming

pub data Event : Type 0 where
  sent : List ℕ → Event
  write_failed read_failed shut_down closed : Event

-- How far the connection got: the client is awaited, the thread returned, or it ran into undefined
-- behaviour (or a trap).
pub data Status : Type 0 where
  waiting returned crashed : Status

-- What the body of the loop makes of a request: the predictions, `atoi` on a number that is no `int` (undefined),
-- `%` by zero (a trap), or inference on a batch that was never filled.
pub data Answer : Type 0 where
  labels : List ℕ → Answer
  bad_number division_by_zero unfilled : Answer

-- `read(socket, buffer, n)` stores at most `n` bytes at the start of the buffer.
abbrev pub store : ℕ → List ℕ → List ℕ → List ℕ
store n bytes buffer = take n bytes ++ drop (length (take n bytes)) buffer

-- The end of `run`.
abbrev pub hang_up : List Event
hang_up = shut_down ∷ closed ∷ []

module _ (fl : Floats) where
  -- `struct args`, less the socket; `garbage` is what the array `predictions` holds when the loop's
  -- body is entered.
  pub record Args : Type 0 where
    pub dataset : Dataset
    pub network : Network fl
    pub n_batches : ℕ
    pub garbage : List ℕ

  -- The body of the loop up to the `write`. The result of `mnist_batch` is ignored.
  unfoldable pub answer_batch : Args → ℤ → Answer
  answer_batch a batch_num = elim (mnist_batch a.dataset batch_size batch_num) [
    | none ↦ unfilled
    | some batch ↦
        labels (neural_network_inference fl (batch_images a.dataset batch) a.network a.garbage)
  ]

  unfoldable pub answer : Args → List ℕ → Answer
  answer a buffer = elim (atoi buffer) [
    | none ↦ bad_number
    | some n ↦ if a.n_batches == 0 then division_by_zero else answer_batch a (rem n a.n_batches)
  ]

  -- The loop, entered with the number of bytes that the next `read` asks for.
  unfoldable pub run_loop : Args → ℕ → List ℕ → List Incoming → List Event × Status
  run_loop a n buffer [] = ([], waiting)
  run_loop a n buffer (end_of_stream ∷ rest) = (hang_up, returned)
  run_loop a n buffer (read_error ∷ rest) = (read_failed ∷ hang_up, returned)
  run_loop a n buffer (received b bs writable ∷ rest) =
      let buffer' = store n (b ∷ bs) buffer in
      let (events, status) = run_loop a 4 buffer' rest in
      elim (answer a buffer') [
        | labels predictions ↦
            ((if writable then sent predictions else write_failed) ∷ events, status)
        | _ ↦ ([], crashed)
      ]

  -- `stale` is what the buffer holds before the first `read`.
  unfoldable pub run : Args → List ℕ → List Incoming → List Event × Status
  unfolding run_loop
  run a stale = run_loop a buffer_size stale
