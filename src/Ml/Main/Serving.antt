-- ===== src/Ml/Main/Serving.antt =====
-- What `main` hands to the connections of the machine learning server.
use wasm_cloud_computing_ben.Prelude.{
  ℕ, ◌*◌, ◌≤◌, ◌<◌, ◌^◌, ◌≡◌, refl, Bool, true, some, List, arith, length,
}
use wasm_cloud_computing_ben.Server.Address.{Ntop}
use wasm_cloud_computing_ben.Server.{Answers}
use wasm_cloud_computing_ben.Ml.ImageFile.{Image, mnist_image_size}
use wasm_cloud_computing_ben.Ml.ImageFile.RoundTrip.{AllSized, encode, get_images-encode}
use wasm_cloud_computing_ben.Ml.Dataset.{
  Dataset, got, mnist_get_dataset, fill_dataset, dataset_bytes,
}
use wasm_cloud_computing_ben.Ml.Network.{Floats}
use wasm_cloud_computing_ben.Ml.Network.Softmax.{neural_network_random_weights_shape}
use wasm_cloud_computing_ben.Ml.Connection.{Args, batch_size}
use wasm_cloud_computing_ben.Ml.Connection.Requests.{IsServing}
use wasm_cloud_computing_ben.Ml.Main.{load, make_args, main, network_bytes}

abbrev pub whole_dataset : List Image → Dataset
whole_dataset is = record { images = is; size = length is }

pub get_dataset-encode :
    (malloc : ℕ → Bool) (is : List Image)
    → AllSized is
    → length is * mnist_image_size < 2 ^ 32
    → ((n : ℕ) → malloc n ≡ true)
    → (mnist_get_dataset malloc (some (encode is))).1 ≡ got (whole_dataset is)
unfolding mnist_get_dataset fill_dataset
get_dataset-encode malloc is sized small given =
    rw (given dataset_bytes, get_images-encode malloc is sized small (given _), mnist_get_dataset)

module _ (fl : Floats) where
  make_args-IsServing :
      (rand : ℕ → fl.Float) (garbage : List ℕ) (d : Dataset)
      → length garbage ≡ batch_size
      → length d.images ≡ d.size
      → batch_size ≤ d.size
      → d.size ≤ 2 ^ 31
      → IsServing fl (make_args fl rand garbage d)
  unfolding make_args
  make_args-IsServing rand garbage d room whole enough small = record {
    whole = whole;
    small = small;
    batches = refl;
    some_batch = omega arith;
    labels = (neural_network_random_weights_shape fl rand).0;
    room = room;
  }

  load-encode :
      (malloc : ℕ → Bool) (is : List Image)
      → AllSized is
      → length is * mnist_image_size < 2 ^ 32
      → ((n : ℕ) → malloc n ≡ true)
      → load fl malloc (some (encode is)) ≡ some (whole_dataset is)
  unfolding load
  load-encode malloc is sized small given =
      rw (given network_bytes, get_dataset-encode malloc is sized small given, load)

  -- Started on a well-formed file of at least twenty images, together below 2 ^ 31 bytes, and with the
  -- memory that it asks for, `main` gives the threads a dataset of these images, the number of full
  -- batches in it and a network with ten labels, as the connections need them.
  pub main-IsServing :
      (ntop : Ntop) (malloc : ℕ → Bool) (is : List Image) (rand : ℕ → fl.Float) (garbage : List ℕ)
      (os : Answers)
      → AllSized is
      → length is * mnist_image_size ≤ 2 ^ 31
      → batch_size ≤ length is
      → length garbage ≡ batch_size
      → ((n : ℕ) → malloc n ≡ true)
      → (a : Args fl) × ((main fl ntop malloc (some (encode is)) rand garbage os).2 ≡ some a)
        × IsServing fl a
        × (a.dataset.images ≡ is)
  unfolding main make_args
  main-IsServing ntop malloc is rand garbage os sized small enough room given =
      let d = whole_dataset is in
      (
        make_args fl rand garbage d,
        rw (load-encode malloc is sized (omega arith) given, main),
        make_args-IsServing rand garbage d room refl enough (omega arith),
        refl,
      )
