-- ===== src/Ml/Main.antt =====
-- `main` of workloads/machine_learning/wasm-src/machine_learning.c.
pub mod Serving
use wasm_cloud_computing_ben.Prelude.{ℕ, ◌/◌, Bool, true, false, Option, none, some, List, [], ◌∷◌}
use wasm_cloud_computing_ben.Server.Address.{Ntop}
use wasm_cloud_computing_ben.Server.{
  Event, dataset_freed, network_freed, Answers, serve, Exit, undefined, finish,
}
use wasm_cloud_computing_ben.Ml.Dataset.{Dataset, Got, no_dataset, corrupt, got, mnist_get_dataset}
use wasm_cloud_computing_ben.Ml.Network.{Floats, Network, neural_network_random_weights}
use wasm_cloud_computing_ben.Ml.Connection.{Args, batch_size}

abbrev pub cleanup : List Event
cleanup = dataset_freed ∷ network_freed ∷ []

-- `sizeof(neural_network_t)`: ten biases and ten rows of 784 weights, four bytes each.
abbrev pub network_bytes : ℕ
network_bytes = 31400

module _ (fl : Floats) where
  -- What the threads are given, once the dataset is there.
  unfoldable pub make_args : (ℕ → fl.Float) → List ℕ → Dataset → Args fl
  make_args rand garbage d = record {
    dataset = d;
    network = neural_network_random_weights fl rand;
    n_batches = d.size / batch_size;
    garbage = garbage;
  }

  -- The loaded dataset, if neither of the unchecked pointers is NULL.
  unfoldable pub load : (ℕ → Bool) → Option (List ℕ) → Option Dataset
  load malloc file = elim (malloc network_bytes) [
    | false ↦ none
    | true ↦ elim ((mnist_get_dataset malloc file).1) [
      | got d ↦ some d
      | no_dataset ↦ none
      | corrupt ↦ none
    ]
  ]

  -- The events and the exit status, with what the threads are given.
  unfoldable pub main :
      Ntop
      → (ℕ → Bool)
      → Option (List ℕ)
      → (ℕ → fl.Float)
      → List ℕ
      → Answers
      → List Event × Exit × Option (Args fl)
  main ntop malloc file rand garbage os = elim (load malloc file) [
    | none ↦ ([], undefined, none)
    | some d ↦
        let (events, exit) = finish cleanup (serve ntop os) in
        (events, exit, some (make_args rand garbage d))
  ]
