-- ===== src/Ml/ImageFile/RoundTrip.antt =====
-- The image files that `get_images` reads back, and those that make it write out of bounds.
use wasm_cloud_computing_ben.Prelude.{
  ℕ, zero, suc, ◌*◌, ◌/◌, ◌%◌, ◌^◌, ◌<◌, ◌≡◌, refl, ap, ap₂, ◌∙◌, Bool, true, some, List, [], ◌∷◌,
  ◌++◌, length, take, drop, arith, length-append,
}
use wasm_cloud_computing_ben.Ml.ByteOrder.{map_uint32-le32}
use wasm_cloud_computing_ben.Ml.ImageFile.{
  opened, closed, allocated, images, Image, read_images, check_header, get_images, mnist_image_size,
  read_header, split_images, images_bytes,
}

-- The four bytes of a word, most significant first, as the file format has them.
abbrev pub be_bytes : ℕ → List ℕ → List ℕ
be_bytes n rest = (n / 16777216) ∷ (n / 65536 % 256) ∷ (n / 256 % 256) ∷ (n % 256) ∷ rest

pub join : List Image → List ℕ
join [] = []
join (i ∷ is) = i ++ join is

abbrev pub encode : List Image → List ℕ
encode is = be_bytes 0x803 (be_bytes (length is) (be_bytes 28 (be_bytes 28 (join is))))

abbrev pub AllSized : List Image → Type 0
AllSized [] = Unit
AllSized (i ∷ is) = (length i ≡ mnist_image_size) × AllSized is

take-append : (n : ℕ) (xs ys : List ℕ) → length xs ≡ n → take n (xs ++ ys) ≡ xs
take-append zero [] ys h = refl
take-append zero (x ∷ xs) ys h = absurd (omega arith)
take-append (suc n) [] ys h = absurd (omega arith)
take-append (suc n) (x ∷ xs) ys h = ap (λ zs. x ∷ zs) (take-append n xs ys (omega arith))

drop-append : (n : ℕ) (xs ys : List ℕ) → length xs ≡ n → drop n (xs ++ ys) ≡ ys
drop-append zero [] ys h = refl
drop-append zero (x ∷ xs) ys h = absurd (omega arith)
drop-append (suc n) [] ys h = absurd (omega arith)
drop-append (suc n) (x ∷ xs) ys h = drop-append n xs ys (omega arith)

length-join : (is : List Image) → AllSized is → length (join is) ≡ length is * mnist_image_size
unfolding join
length-join [] h = refl
length-join (i ∷ is) h = omega (arith, length-append i (join is), length-join is h.1)

split_images-join : (is : List Image) → AllSized is → split_images (length is) (join is) ≡ is
unfolding join split_images
split_images-join [] h = refl
split_images-join (i ∷ is) h =
    ap₂ ◌∷◌ (take-append 784 i (join is) h.0)
      (ap (split_images (length is)) (drop-append 784 i (join is) h.0) ∙ split_images-join is h.1)

read_header-encode :
    (n : ℕ) (body : List ℕ)
    → n < 2 ^ 32
    → read_header (be_bytes 0x803 (be_bytes n (be_bytes 28 (be_bytes 28 body)))) ≡ record {
      magic_number = 0x803;
      number_of_images = n;
      number_of_rows = 28;
      number_of_columns = 28;
    }
unfolding read_header
read_header-encode n body h = ground (
  arith,
  map_uint32-le32 0 0 8 3 (omega arith) (omega arith) (omega arith) (omega arith),
  map_uint32-le32 0 0 0 28 (omega arith) (omega arith) (omega arith) (omega arith),
  map_uint32-le32 (n / 16777216) (n / 65536 % 256) (n / 256 % 256) (n % 256) (omega arith)
      (omega arith) (omega arith) (omega arith),
)

read_images-encode :
    (malloc : ℕ → Bool) (is : List Image)
    → AllSized is
    → length is * mnist_image_size < 2 ^ 32
    → malloc (length is * mnist_image_size) ≡ true
    → read_images malloc (length is) (join is)
      ≡ (allocated (length is * mnist_image_size) ∷ closed ∷ [], images (length is) is)
unfolding read_images
read_images-encode malloc is sized small given =
    let fits : images_bytes (length is) ≡ length is * 784 = omega arith in
    rw (fits, given) (ground (arith, length-join is sized, split_images-join is sized))

-- The file that holds the header of `is` in network order and then its images is read back: for
-- images of 784 bytes each, together below 2 ^ 32 bytes, and a `malloc` that grants the block,
-- `get_images` returns their number and the images themselves, and prints no message.
pub get_images-encode :
    (malloc : ℕ → Bool) (is : List Image)
    → AllSized is
    → length is * mnist_image_size < 2 ^ 32
    → malloc (length is * mnist_image_size) ≡ true
    → get_images malloc (some (encode is))
      ≡ (opened ∷ allocated (length is * mnist_image_size) ∷ closed ∷ [], images (length is) is)
unfolding get_images check_header
get_images-encode malloc is sized small given =
    rw
      (
        read_header-encode (length is) (join is) (omega arith),
        read_images-encode malloc is sized small given,
      )
      (ground arith)
