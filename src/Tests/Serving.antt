-- ===== src/Tests/Serving.antt =====
-- The servers at concrete inputs: addresses, clients, and a connection of the machine learning server.
use wasm_cloud_computing_ben.Prelude.{
  ◌≡◌, refl, true, false, none, some, List, [], ◌∷◌, ◌++◌, map, arith, replicate, ◌⊎◌, All,
}
use wasm_cloud_computing_ben.Prelude.Int.{pos}
use wasm_cloud_computing_ben.Server.{
  Accepted, failed, accepted, Answers, broke, blocked, accept_loop,
}
use wasm_cloud_computing_ben.Server.Address.{Ntop, IsNtop, inet, inet6, other}
use wasm_cloud_computing_ben.Server.Accepting.{accept_loop-taken, settled, AllUsual}
use wasm_cloud_computing_ben.Ml.ImageFile.{Image, get_images}
use wasm_cloud_computing_ben.Ml.ImageFile.RoundTrip.{encode, AllSized}
use wasm_cloud_computing_ben.Ml.Dataset.{mnist_get_dataset, fill_dataset, got, no_dataset}
use wasm_cloud_computing_ben.Ml.Connection.{Args, run, end_of_stream, sent, hang_up, returned}
use wasm_cloud_computing_ben.Ml.Connection.Requests.{
  IsServing, Request, IsRequest, labels_of, run-requests, incoming, number,
}
use wasm_cloud_computing_ben.Ml.Main.{main}
use wasm_cloud_computing_ben.Ml.Main.Serving.{main-IsServing, get_dataset-encode, whole_dataset}
use wasm_cloud_computing_ben.Tests.Learning.{numbers, biased, grant, one_image}

-- Every address prints as `::`.
abbrev any : Ntop
any v6 addr = b':' ∷ b':' ∷ []

any-IsNtop : IsNtop any
any-IsNtop v6 addr = omega arith

abbrev clients : List Accepted
clients =
    accepted 4 (inet 0xd204 (replicate 4 0)) true true
    ∷ accepted 5 (inet6 0xd204 (replicate 16 0)) true false
    ∷ accepted 6 other true true
    ∷ []

abbrev two_clients : List Accepted
two_clients =
    accepted 4 (inet 0xd204 (replicate 4 0)) true true
    ∷ accepted 5 (inet6 0xd204 (replicate 16 0)) true false
    ∷ failed
    ∷ []

two_clients-AllUsual : AllUsual two_clients
two_clients-AllUsual = (omega arith, refl, (omega arith, refl, tt))

accept_loop-taken_example :
    let (events, ending) = accept_loop any two_clients in
    (settled events ≡ (4, true) ∷ (5, false) ∷ []) × ((ending ≡ broke) ⊎ (ending ≡ blocked))
accept_loop-taken_example = accept_loop-taken any two_clients any-IsNtop two_clients-AllUsual

-- Forty images without pixels: two batches.
abbrev forty : Args numbers
forty = record {
  dataset = record { images = replicate 40 []; size = 40 };
  network = biased;
  n_batches = 2;
  garbage = replicate 20 99;
}

forty-IsServing : IsServing numbers forty
forty-IsServing = record {
  whole = refl;
  small = omega arith;
  batches = refl;
  some_batch = omega arith;
  labels = refl;
  room = refl;
}

abbrev two_requests : List Request
two_requests =
    record { first = b'0'; others = []; ending = 10 }
    ∷ record { first = b'1'; others = b'7' ∷ []; ending = 10 }
    ∷ []

two_requests-All : All IsRequest two_requests
two_requests-All = (
  record { digits = (refl, tt); ends = refl; short = omega arith },
  (record { digits = (refl, (refl, tt)); ends = refl; short = omega arith }, tt),
)

run-requests_example :
    run numbers forty (replicate 20 0) (map incoming two_requests ++ (end_of_stream ∷ []))
    ≡ (map (λ r. sent (labels_of numbers forty (number r))) two_requests ++ hang_up, returned)
run-requests_example =
    run-requests numbers forty forty-IsServing two_requests (replicate 20 0) two_requests-All

-- Twenty images of 784 bytes.
abbrev twenty : List Image
twenty = replicate 20 (replicate 784 7)

abbrev unbound : Answers
unbound = record { socket = pos 3; setsockopt = true; bind = false; listen = true; accepts = [] }

twenty-AllSized : AllSized twenty
twenty-AllSized = omega arith

main-IsServing_example :
    (a : Args numbers) × ((main numbers any grant
        (some (encode twenty))
        (λ k. k)
        (replicate 20 0)
        unbound).2
      ≡ some a)
    × IsServing numbers a
    × (a.dataset.images ≡ twenty)
main-IsServing_example =
    main-IsServing numbers any grant twenty (λ k. k) (replicate 20 0) unbound twenty-AllSized
      (omega arith) (omega arith) refl (λ n. refl)

no_file : (mnist_get_dataset grant none).1 ≡ no_dataset
unfolding mnist_get_dataset fill_dataset get_images
no_file = refl

one_dataset : (mnist_get_dataset grant (some (encode one_image))).1 ≡ got (whole_dataset one_image)
one_dataset = get_dataset-encode grant one_image (refl, tt) (omega arith) (λ n. refl)
