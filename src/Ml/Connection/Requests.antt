-- ===== src/Ml/Connection/Requests.antt =====
-- The answers of a connection of the machine learning server.
use mathlib.Core.List.{append-nil, append_assoc}
use wasm_cloud_computing_ben.Prelude.{
  ℕ, ◌+◌, ◌-◌, ◌*◌, ◌/◌, ◌%◌, ◌^◌, ◌≤◌, ◌<◌, ◌≡◌, refl, ap, ◌∙◌, true, false, some, List, [], ◌∷◌,
  ◌++◌, map, take, drop, length, arith, All, All-map, length-map, length-take, length-drop,
  length-append, drop_all, take_all,
}
use wasm_cloud_computing_ben.Prelude.Int.{pos}
use wasm_cloud_computing_ben.Prelude.Text.{decimal, AllDigits, is_digit, atoi-decimal}
use wasm_cloud_computing_ben.Ml.ImageFile.{Image}
use wasm_cloud_computing_ben.Ml.Dataset.{mnist_batch}
use wasm_cloud_computing_ben.Ml.Dataset.Batches.{mnist_batch_lem}
use wasm_cloud_computing_ben.Ml.Network.{Floats, mnist_labels, neural_network_inference}
use wasm_cloud_computing_ben.Ml.Network.Inference.{
  classify, classify-lt, neural_network_inference_lem,
}
use wasm_cloud_computing_ben.Ml.Connection.{
  Answer, Args, answer, answer_batch, run, run_loop, batch_size, buffer_size, Incoming, received,
  end_of_stream, sent, hang_up, returned, store,
}

-- What `main` hands to `run`: the whole dataset, at least one full batch of it, ten labels.
pub record IsServing (fl : Floats) (a : Args fl) : Type 0 where
  pub whole : length a.dataset.images ≡ a.dataset.size
  pub small : a.dataset.size ≤ 2 ^ 31
  pub batches : a.n_batches ≡ a.dataset.size / batch_size
  pub some_batch : 0 < a.n_batches
  pub labels : length a.network.b ≡ mnist_labels
  pub room : length a.garbage ≡ batch_size

module _ (fl : Floats) where
  -- The images that request number `n` asks for: its batch, going round at the number of batches.
  abbrev pub requested : Args fl → ℕ → List Image
  requested a n = take batch_size (drop (batch_size * (n % a.n_batches)) a.dataset.images)

  abbrev pub labels_of : Args fl → ℕ → List ℕ
  labels_of a n = map (classify fl a.network) (requested a n)

module _ (fl : Floats) (a : Args fl) (s : IsServing fl a) where
  length-requested : (n : ℕ) → length (requested fl a n) ≡ batch_size
  length-requested n = omega (
    arith,
    s.whole,
    s.batches,
    s.some_batch,
    length-take batch_size (drop (batch_size * (n % a.n_batches)) a.dataset.images),
    length-drop (batch_size * (n % a.n_batches)) a.dataset.images,
  )

  -- The answer to a request has one label for each of the twenty images of a batch, all below ten.
  pub labels_of_sound :
      (n : ℕ)
      → (length (labels_of fl a n) ≡ batch_size) × All (λ l. l < mnist_labels) (labels_of fl a n)
  labels_of_sound n = (
    length-map _ (requested fl a n) ∙ length-requested n,
    All-map (λ l. l < mnist_labels) _ (requested fl a n) (λ i. classify-lt fl a.network i s.labels),
  )

  filled :
      (n : ℕ)
      → neural_network_inference fl (requested fl a n) a.network a.garbage ≡ labels_of fl a n
  filled n =
      neural_network_inference_lem fl a.network (requested fl a n) a.garbage
        (omega (arith, length-requested n, s.room))
      ∙ rw
          (drop_all (length (requested fl a n)) a.garbage
            (omega (arith, length-requested n, s.room)))
          (append-nil (labels_of fl a n))

  full_batch :
      (n : ℕ)
      → mnist_batch a.dataset batch_size (pos (n % a.n_batches))
        ≡ some (record { start = batch_size * (n % a.n_batches); size = batch_size })
  full_batch n = ground (
    arith,
    s.small,
    s.batches,
    s.some_batch,
    mnist_batch_lem a.dataset batch_size (n % a.n_batches),
  )

  answer_batch_lem :
      (n : ℕ) → answer_batch fl a (pos (n % a.n_batches)) ≡ Answer.labels (labels_of fl a n)
  unfolding answer_batch
  answer_batch_lem n = rw (full_batch n, answer_batch) (ap Answer.labels (filled n))

  -- A buffer that begins with the digits of `n`, ended by another byte, is answered with the labels of
  -- the images of batch `n` modulo the number of batches, if `n` fits an `int`.
  pub answer-decimal :
      (d : ℕ) (ds : List ℕ) (c : ℕ) (rest : List ℕ)
      → AllDigits (d ∷ ds)
      → is_digit c ≡ false
      → decimal 0 (d ∷ ds) < 2 ^ 31
      → answer fl a ((d ∷ ds) ++ (c ∷ rest)) ≡ Answer.labels (labels_of fl a (decimal 0 (d ∷ ds)))
  unfolding answer
  answer-decimal d ds c rest digits ends fits =
      rw (atoi-decimal d ds c rest digits ends fits, answer)
        (ground (arith, s.some_batch, answer_batch_lem (decimal 0 (d ∷ ds))))

-- A request of the client: its digits and the byte behind them.
pub record Request : Type 0 where
  pub first : ℕ
  pub others : List ℕ
  pub ending : ℕ

-- Together at most four bytes.
pub record IsRequest (r : Request) : Type 0 where
  pub digits : AllDigits (r.first ∷ r.others)
  pub ends : is_digit r.ending ≡ false
  pub short : length r.others ≤ 2

abbrev pub bytes : Request → List ℕ
bytes r = r.others ++ (r.ending ∷ [])

abbrev pub number : Request → ℕ
number r = decimal 0 (r.first ∷ r.others)

abbrev pub incoming : Request → Incoming
incoming r = received r.first (bytes r) true

decimal_le :
    (ds : List ℕ) (acc : ℕ) → AllDigits ds → length ds ≤ 2 → decimal acc ds ≤ acc * 100 + 99
decimal_le [] acc h l = omega arith
decimal_le (d ∷ []) acc h l = ground arith
decimal_le (d ∷ e ∷ []) acc h l = ground arith
decimal_le (d ∷ e ∷ f ∷ ds) acc h l = absurd (omega arith)

store-bytes :
    (r : Request) (n : ℕ) (buffer : List ℕ)
    → IsRequest r
    → 4 ≤ n
    → (rest : List ℕ) × (store n (r.first ∷ bytes r) buffer
        ≡ (r.first ∷ r.others) ++ (r.ending ∷ rest))
store-bytes r n buffer q room =
    let fits : take n (r.first ∷ bytes r) ≡ r.first ∷ bytes r =
      take_all n (r.first ∷ bytes r)
        (omega (arith, length-append r.others (r.ending ∷ []), q.short)) in
    (
      drop (length (r.first ∷ bytes r)) buffer,
      rw fits (
          append_assoc (r.first ∷ r.others) (r.ending ∷ [])
            (drop (length (r.first ∷ bytes r)) buffer)),
    )

module _ (fl : Floats) (a : Args fl) (s : IsServing fl a) where
  answer-request :
      (r : Request) (n : ℕ) (buffer : List ℕ)
      → IsRequest r
      → 4 ≤ n
      → answer fl a (store n (r.first ∷ bytes r) buffer) ≡ Answer.labels (labels_of fl a (number r))
  answer-request r n buffer q room =
      let (rest, e) = store-bytes r n buffer q room in
      rw e (
        answer-decimal fl a s r.first r.others r.ending rest q.digits q.ends
          (ground (arith, decimal_le r.others (r.first - b'0'), q.digits, q.short)))

  run_loop-requests :
      (rs : List Request) (n : ℕ) (buffer : List ℕ)
      → All IsRequest rs
      → 4 ≤ n
      → run_loop fl a n buffer (map incoming rs ++ (end_of_stream ∷ []))
        ≡ (map (λ r. sent (labels_of fl a (number r))) rs ++ hang_up, returned)
  unfolding run_loop
  run_loop-requests [] n buffer q room = refl
  run_loop-requests (r ∷ rs) n buffer q room =
      rw (answer-request r n buffer q.0 room, run_loop)
        (ap (λ out. (sent (labels_of fl a (number r)) ∷ out.0, out.1))
          (run_loop-requests rs 4 (store n (r.first ∷ bytes r) buffer) q.1 (omega arith)))

  -- A client whose requests of one to three digits, each with a byte behind that is no digit, arrive each in
  -- one read of its own, to whom every write succeeds, and who then ends the stream, gets for each the labels of
  -- its batch, in order, whatever the buffer held; then the socket is shut down and closed, and the thread
  -- returns.
  pub run-requests :
      (rs : List Request) (stale : List ℕ)
      → All IsRequest rs
      → run fl a stale (map incoming rs ++ (end_of_stream ∷ []))
        ≡ (map (λ r. sent (labels_of fl a (number r))) rs ++ hang_up, returned)
  unfolding run
  run-requests rs stale q = run_loop-requests rs buffer_size stale q (omega arith)
