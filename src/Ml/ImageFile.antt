-- ===== src/Ml/ImageFile.antt =====
-- `get_images` of workloads/machine_learning/wasm-src/machine_learning.c and the types of
-- workloads/machine_learning/wasm-src/include/mnist_file.h.
-- A file is the list of its bytes; `fopen` fails on `none`. What `malloc` answers is a parameter.
pub mod Effects
pub mod RoundTrip
use wasm_cloud_computing_ben.Prelude.{
  ℕ, zero, suc, ◌+◌, ◌-◌, ◌*◌, ◌/◌, ◌%◌, ◌^◌, Bool, Option, none, some, List, [], ◌∷◌, ltb, ◌==◌,
  if◌then◌else◌, length, take, drop, get_or, min, not,
}
use wasm_cloud_computing_ben.Ml.ByteOrder.{le32, map_uint32}

abbrev pub mnist_image_magic : ℕ
mnist_image_magic = 0x803

abbrev pub mnist_image_width : ℕ
mnist_image_width = 28

abbrev pub mnist_image_height : ℕ
mnist_image_height = 28

abbrev pub mnist_image_size : ℕ
mnist_image_size = mnist_image_width * mnist_image_height

-- `mnist_image_t`: the pixels, one byte each.
abbrev pub Image : Type 0
Image = List ℕ

-- `mnist_image_file_header_t`, four words of 32 bits.
pub record Header : Type 0 where
  pub magic_number : ℕ
  pub number_of_images : ℕ
  pub number_of_rows : ℕ
  pub number_of_columns : ℕ

abbrev pub header_size : ℕ
header_size = 16

-- What the function does to the world, in order. The messages go to stderr.
pub data Message : Type 0 where
  could_not_open could_not_read_header invalid_header invalid_rows invalid_columns : Message
  could_not_allocate could_not_read_images : Message

pub data Event : Type 0 where
  opened closed freed : Event
  allocated : ℕ → Event
  message : Message → Event

-- `overrun` is a write past the end of the block that `malloc` returned.
pub data Reply : Type 0 where
  null overrun : Reply
  images : ℕ → List Image → Reply

-- The header as `fread` leaves it in memory: little-endian words.
word_at : ℕ → List ℕ → ℕ
word_at i bs =
    le32 (get_or bs i 0) (get_or bs (i + 1) 0) (get_or bs (i + 2) 0) (get_or bs (i + 3) 0)

unfoldable pub read_header : List ℕ → Header
unfolding word_at
read_header bs = record {
  magic_number = map_uint32 (word_at 0 bs);
  number_of_images = map_uint32 (word_at 4 bs);
  number_of_rows = map_uint32 (word_at 8 bs);
  number_of_columns = map_uint32 (word_at 12 bs);
}

-- `n` images one after another.
unfoldable pub split_images : ℕ → List ℕ → List Image
split_images zero bs = []
split_images (suc n) bs = take mnist_image_size bs ∷ split_images n (drop mnist_image_size bs)

-- The size in bytes that `malloc` is asked for; `size_t` has 32 bits on wasm32.
abbrev pub images_bytes : ℕ → ℕ
images_bytes n = n * mnist_image_size % 2 ^ 32

abbrev pub warn : Bool → Message → List Event → List Event
warn bad m rest = if bad then message m ∷ rest else rest

-- `malloc`, the second `fread` and the end of the function, for the bytes behind the header.
unfoldable pub read_images : (ℕ → Bool) → ℕ → List ℕ → List Event × Reply
read_images malloc n body =
    let want = images_bytes n in
    if not (malloc want)
    then (message could_not_allocate ∷ closed ∷ [], null)
    else if ltb want (min (n * mnist_image_size) (length body))
    then (allocated want ∷ [], overrun)
    else if ltb (length body / mnist_image_size) n
    then (allocated want ∷ message could_not_read_images ∷ freed ∷ closed ∷ [], null)
    else (allocated want ∷ closed ∷ [], images n (split_images n body))

-- The magic number is checked; the numbers of rows and columns are only warned about.
unfoldable pub check_header : (ℕ → Bool) → Header → List ℕ → List Event × Reply
check_header malloc h body =
    if not (h.magic_number == mnist_image_magic)
    then (message invalid_header ∷ closed ∷ [], null)
    else let (events, reply) = read_images malloc h.number_of_images body in
      (
        warn (not (h.number_of_rows == mnist_image_width)) invalid_rows
            (warn (not (h.number_of_columns == mnist_image_height)) invalid_columns events),
        reply,
      )

unfoldable pub get_images : (ℕ → Bool) → Option (List ℕ) → List Event × Reply
get_images malloc none = (message could_not_open ∷ [], null)
get_images malloc (some bs) =
    if ltb (length bs) header_size
    then (opened ∷ message could_not_read_header ∷ closed ∷ [], null)
    else let (events, reply) = check_header malloc (read_header bs) (drop header_size bs) in
      (opened ∷ events, reply)
