-- ===== src/Prelude/Words.antt =====
-- Bitwise operations on words: the laws by which a word is taken apart into its low and high bits.
use Prim.Native.Nat.{
  ℕ, zero, suc, ◌+◌, ◌-◌, ◌*◌, ◌/◌, ◌%◌, ◌≤◌, min, max, bit_and, bit_or, digits, bit_and-bitwise,
  bit_or-bitwise,
}
use mathlib.Core.Path.{◌≡◌, refl, ap, ap₂, ◌∙◌}
use native.Mathlib.Omega.{arith}

-- An operation that works on the lowest digits and on the rest.
abbrev Stepwise : (ℕ → ℕ → ℕ) → (ℕ → ℕ → ℕ) → Type 0
Stepwise f g = (a b : ℕ) → f a b ≡ f (a / 2) (b / 2) * 2 + g (a % 2) (b % 2)

-- The recursion on binary digits that the native operations stand for does not look at fuel beyond
-- the first number.
module _ (z : ℕ → ℕ) (g : ℕ → ℕ → ℕ) where
  one_more : (n a b : ℕ) → a ≤ n → digits z g (suc n) a b ≡ digits z g n a b
  one_more zero (suc a) b h = absurd (omega arith)
  one_more zero zero b h = refl
  one_more (suc n) zero b h = refl
  one_more (suc n) (suc a) b h = omega (arith, one_more n (suc a / 2) (b / 2) (omega arith))

  spare : (k n a b : ℕ) → n ≡ a + k → digits z g n a b ≡ digits z g a a b
  spare zero n a b h = let same : n ≡ a = omega arith in ap (λ m. digits z g m a b) same
  spare (suc k) zero a b h = absurd (omega arith)
  spare (suc k) (suc n) a b h = one_more n a b (omega arith) ∙ spare k n a b (omega arith)

  halved : (a b : ℕ) → digits z g a (suc a / 2) (b / 2) ≡ digits z g (suc a / 2) (suc a / 2) (b / 2)
  halved a b = spare (a - suc a / 2) a (suc a / 2) (b / 2) (omega arith)

bit_and_step : Stepwise bit_and min
bit_and_step zero b = omega (arith, bit_and-bitwise 0 b, bit_and-bitwise 0 (b / 2))
bit_and_step (suc a) b =
    omega (
      arith,
      halved (λ _. 0) min a b,
      bit_and-bitwise (suc a) b,
      bit_and-bitwise (suc a / 2) (b / 2),
    )

bit_or_step : Stepwise bit_or max
bit_or_step zero b = omega (arith, bit_or-bitwise 0 b, bit_or-bitwise 0 (b / 2))
bit_or_step (suc a) b =
    omega
      (arith, halved (λ x. x) max a b, bit_or-bitwise (suc a) b, bit_or-bitwise (suc a / 2) (b / 2))

-- The operation works on the digits to base `m` one at a time.
abbrev pub Splits : (ℕ → ℕ → ℕ) → ℕ → Type 0
Splits f m = (a b : ℕ) → f a b ≡ f (a / m) (b / m) * m + f (a % m) (b % m)

Splits-bit :
    (f : ℕ → ℕ → ℕ) (g : ℕ → ℕ → ℕ)
    → f 0 0 ≡ 0
    → ((a b : ℕ) → f a b ≡ f (a / 2) (b / 2) * 2 + g (a % 2) (b % 2))
    → Splits f 2
Splits-bit f g z step a b = grind (arith, step a b, step (a % 2) (b % 2), z)

-- From one digit to two.
Splits-four : (f : ℕ → ℕ → ℕ) → Splits f 2 → Splits f 4
Splits-four f s a b = omega (
  arith,
  s a b,
  s (a / 2) (b / 2),
  s (a % 4) (b % 4),
  ap₂ f (high a) (high b),
  ap₂ f (mid a) (mid b),
  ap₂ f (low a) (low b),
)
  where
    high : (x : ℕ) → x / 2 / 2 ≡ x / 4
    high x = omega arith

    mid : (x : ℕ) → x % 4 / 2 ≡ x / 2 % 2
    mid x = omega arith

    low : (x : ℕ) → x % 4 % 2 ≡ x % 2
    low x = omega arith

Splits-sixteen : (f : ℕ → ℕ → ℕ) → Splits f 4 → Splits f 16
Splits-sixteen f s a b = omega (
  arith,
  s a b,
  s (a / 4) (b / 4),
  s (a % 16) (b % 16),
  ap₂ f (high a) (high b),
  ap₂ f (mid a) (mid b),
  ap₂ f (low a) (low b),
)
  where
    high : (x : ℕ) → x / 4 / 4 ≡ x / 16
    high x = omega arith

    mid : (x : ℕ) → x % 16 / 4 ≡ x / 4 % 4
    mid x = omega arith

    low : (x : ℕ) → x % 16 % 4 ≡ x % 4
    low x = omega arith

Splits-byte : (f : ℕ → ℕ → ℕ) → Splits f 16 → Splits f 256
Splits-byte f s a b = omega (
  arith,
  s a b,
  s (a / 16) (b / 16),
  s (a % 256) (b % 256),
  ap₂ f (high a) (high b),
  ap₂ f (mid a) (mid b),
  ap₂ f (low a) (low b),
)
  where
    high : (x : ℕ) → x / 16 / 16 ≡ x / 256
    high x = omega arith

    mid : (x : ℕ) → x % 256 / 16 ≡ x / 16 % 16
    mid x = omega arith

    low : (x : ℕ) → x % 256 % 16 ≡ x % 16
    low x = omega arith

bit_and-Splits : Splits bit_and 4
bit_and-Splits = Splits-four bit_and (Splits-bit bit_and min refl bit_and_step)

bit_or-Splits : Splits bit_or 4
bit_or-Splits = Splits-four bit_or (Splits-bit bit_or max refl bit_or_step)

pub bit_and-Splits-byte : Splits bit_and 256
bit_and-Splits-byte = Splits-byte bit_and (Splits-sixteen bit_and bit_and-Splits)

pub bit_or-Splits-byte : Splits bit_or 256
bit_or-Splits-byte = Splits-byte bit_or (Splits-sixteen bit_or bit_or-Splits)

bit_and-zero_fuel : (n a : ℕ) → a ≤ n → bit_and a 0 ≡ 0
bit_and-zero_fuel zero zero h = refl
bit_and-zero_fuel zero (suc a) h = absurd (omega arith)
bit_and-zero_fuel (suc n) zero h = refl
bit_and-zero_fuel (suc n) (suc a) h =
    omega (arith, bit_and_step (suc a) 0, bit_and-zero_fuel n (suc a / 2) (omega arith))

-- The number of `k` ones, and what it masks.
ones : ℕ → ℕ
ones zero = 0
ones (suc k) = ones k * 2 + 1

low_digits : ℕ → ℕ → ℕ
low_digits zero x = 0
low_digits (suc k) x = low_digits k (x / 2) * 2 + x % 2

bit_and-ones : (k x : ℕ) → bit_and x (ones k) ≡ low_digits k x
unfolding ones low_digits
bit_and-ones zero x = bit_and-zero_fuel x x (omega arith)
bit_and-ones (suc k) x = omega (
  arith,
  bit_and_step x (ones k * 2 + 1),
  bit_and-ones k (x / 2),
  ap (bit_and (x / 2)) (half (ones k)),
)
  where
    half : (m : ℕ) → (m * 2 + 1) / 2 ≡ m
    half m = omega arith

low_byte : (x : ℕ) → low_digits 8 x ≡ x % 256
unfolding low_digits
low_byte x = omega arith

bit_or-zero_fuel : (n a : ℕ) → a ≤ n → bit_or a 0 ≡ a
bit_or-zero_fuel zero zero h = refl
bit_or-zero_fuel zero (suc a) h = absurd (omega arith)
bit_or-zero_fuel (suc n) zero h = refl
bit_or-zero_fuel (suc n) (suc a) h =
    omega (arith, bit_or_step (suc a) 0, bit_or-zero_fuel n (suc a / 2) (omega arith))

pub zero-bit_or : (b : ℕ) → bit_or 0 b ≡ b
zero-bit_or b = bit_or-bitwise 0 b

-- `x & 0xff` is the low byte.
pub bit_and-byte : (x : ℕ) → bit_and x 0xff ≡ x % 256
unfolding ones
bit_and-byte x = bit_and-ones 8 x ∙ low_byte x

-- A mask with eight zeros at the end looks at the bytes above.
pub bit_and_up : (x m : ℕ) → bit_and x (m * 256) ≡ bit_and (x / 256) m * 256
bit_and_up x m = omega (
  arith,
  bit_and-Splits-byte x (m * 256),
  ap (bit_and (x / 256)) (low m),
  ap (bit_and (x % 256)) (none_left m),
  bit_and-zero_fuel (x % 256) (x % 256) (omega arith),
)
  where
    low : (m : ℕ) → m * 256 / 256 ≡ m
    low m = omega arith

    none_left : (m : ℕ) → m * 256 % 256 ≡ 0
    none_left m = omega arith

-- `|` of numbers whose bytes do not overlap is their sum.
pub bit_or_up :
    (lo hi m : ℕ)
    → bit_or (lo / 256) (hi * m) ≡ lo / 256 + hi * m
    → bit_or lo (hi * (m * 256)) ≡ lo + hi * (m * 256)
bit_or_up lo hi m h = omega (
  arith,
  bit_or-Splits-byte lo (hi * (m * 256)),
  ap (bit_or (lo / 256)) (low hi m),
  ap (bit_or (lo % 256)) (none_left hi m),
  bit_or-zero_fuel (lo % 256) (lo % 256) (omega arith),
)
  where
    low : (hi m : ℕ) → hi * (m * 256) / 256 ≡ hi * m
    low hi m = omega arith

    none_left : (hi m : ℕ) → hi * (m * 256) % 256 ≡ 0
    none_left hi m = omega arith
