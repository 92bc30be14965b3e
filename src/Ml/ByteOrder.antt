-- ===== src/Ml/ByteOrder.antt =====
-- `map_uint32` of workloads/machine_learning/wasm-src/machine_learning.c, in its little-endian form
-- (wasm32 is little endian): the order of the four bytes of a header word.
use Prim.Native.Nat.{bit_and, bit_or}
use wasm_cloud_computing_ben.Prelude.{ℕ, ◌+◌, ◌*◌, ◌/◌, ◌%◌, ◌^◌, ◌<◌, ◌≡◌, ◌∙◌, arith}
use wasm_cloud_computing_ben.Prelude.Words.{bit_and-byte, bit_and_up, bit_or_up, zero-bit_or}

-- `<<` on uint32_t drops what leaves the word.
abbrev pub shl32 : ℕ → ℕ → ℕ
shl32 x k = x * 2 ^ k % 2 ^ 32

abbrev pub shr32 : ℕ → ℕ → ℕ
shr32 x k = x / 2 ^ k

unfoldable pub map_uint32 : ℕ → ℕ
map_uint32 x =
    bit_or
      (bit_or (bit_or (shr32 (bit_and x 0xff00_0000) 24) (shr32 (bit_and x 0x00ff_0000) 8))
        (shl32 (bit_and x 0x0000_ff00) 8))
      (shl32 (bit_and x 0x0000_00ff) 24)

-- The number that four bytes make in memory on a little-endian machine, and in network order.
abbrev pub le32 : ℕ → ℕ → ℕ → ℕ → ℕ
le32 a b c d = a + 256 * b + 65536 * c + 16777216 * d

abbrev pub be32 : ℕ → ℕ → ℕ → ℕ → ℕ
be32 a b c d = le32 d c b a

mask_top : (x : ℕ) → x < 2 ^ 32 → shr32 (bit_and x 0xff00_0000) 24 ≡ x / 16777216
mask_top x h = omega (
  arith,
  bit_and_up x 0xff0000,
  bit_and_up (x / 256) 0xff00,
  bit_and_up (x / 256 / 256) 0xff,
  bit_and-byte (x / 256 / 256 / 256),
)

mask_third : (x : ℕ) → shr32 (bit_and x 0x00ff_0000) 8 ≡ x / 65536 % 256 * 256
mask_third x =
    omega (arith, bit_and_up x 0xff00, bit_and_up (x / 256) 0xff, bit_and-byte (x / 256 / 256))

mask_second : (x : ℕ) → shl32 (bit_and x 0x0000_ff00) 8 ≡ x / 256 % 256 * 65536
mask_second x = omega (arith, bit_and_up x 0xff, bit_and-byte (x / 256))

mask_low : (x : ℕ) → shl32 (bit_and x 0x0000_00ff) 24 ≡ x % 256 * 16777216
mask_low x = omega (arith, bit_and-byte x)

or_byte : (lo hi : ℕ) → lo < 256 → bit_or lo (hi * 256) ≡ lo + hi * 256
or_byte lo hi h =
    let none_above : lo / 256 ≡ 0 = omega arith in
    bit_or_up lo hi 1 (rw none_above (zero-bit_or (hi * 1) ∙ omega arith))

or_half : (lo hi : ℕ) → lo < 65536 → bit_or lo (hi * 65536) ≡ lo + hi * 65536
or_half lo hi h = bit_or_up lo hi 256 (or_byte (lo / 256) hi (omega arith))

or_top : (lo hi : ℕ) → lo < 16777216 → bit_or lo (hi * 16777216) ≡ lo + hi * 16777216
or_top lo hi h = bit_or_up lo hi 65536 (or_half (lo / 256) hi (omega arith))

-- The masks and shifts of `map_uint32` move each byte to the opposite place.
map_uint32-digits :
    (x : ℕ)
    → x < 2 ^ 32
    → map_uint32 x
      ≡ x / 16777216 + x / 65536 % 256 * 256 + x / 256 % 256 * 65536 + x % 256 * 16777216
unfolding map_uint32
map_uint32-digits x h =
    rw
      (
        mask_top x h,
        mask_third x,
        mask_second x,
        mask_low x,
        or_byte (x / 16777216) (x / 65536 % 256) (omega arith),
        or_half (x / 16777216 + x / 65536 % 256 * 256) (x / 256 % 256) (omega arith),
      )
      (or_top (x / 16777216 + x / 65536 % 256 * 256 + x / 256 % 256 * 65536) (x % 256)
        (omega arith))

-- Four bytes below 256 that memory holds in the order of the file, read as a little-endian word and
-- passed through `map_uint32`, are the number that they stand for in network order.
pub map_uint32-le32 :
    (a b c d : ℕ) → a < 256 → b < 256 → c < 256 → d < 256 → map_uint32 (le32 a b c d) ≡ be32 a b c d
map_uint32-le32 a b c d ha hb hc hd = omega (arith, map_uint32-digits (le32 a b c d) (omega arith))
