-- ===== src/Prelude/Int.antt =====
-- The values of a C `int` as signed integers over the native numbers, under the library's names.
use Prim.Native.Nat.{ℕ, zero, suc, ◌-◌, ◌*◌, ◌%◌, ◌^◌, ◌<◌}
use mathlib.Core.Path.{◌≡◌, refl}
use mathlib.Core.Bool.{Bool, true, false, not}
use wasm_cloud_computing_ben.Prelude.Tests.{ltb, ◌==◌}
use native.Mathlib.Omega.{arith}

-- `negsuc n` is -(n + 1).
pub data ℤ : Type 0 where
  pos : ℕ → ℤ
  negsuc : ℕ → ℤ

-- -n
abbrev pub neg : ℕ → ℤ
neg zero = pos 0
neg (suc n) = negsuc n

-- A non-negative factor times an integer.
abbrev pub mul_ℕ : ℕ → ℤ → ℤ
mul_ℕ k (pos n) = pos (k * n)
mul_ℕ k (negsuc n) = neg (k * suc n)

-- C's `%` by a positive number: the quotient rounds towards zero, so the sign is the dividend's.
abbrev pub rem : ℤ → ℕ → ℤ
rem (pos a) n = pos (a % n)
rem (negsuc a) n = neg (suc a % n)

-- The conversion of an integer to `uint32_t`.
abbrev pub to_u32 : ℤ → ℕ
to_u32 (pos n) = n % 2 ^ 32
to_u32 (negsuc n) = 2 ^ 32 - 1 - n % 2 ^ 32

pub to_u32-neg : (n : ℕ) → 0 < n → n < 2 ^ 32 → to_u32 (neg n) ≡ 2 ^ 32 - n
to_u32-neg zero h l = absurd (omega arith)
to_u32-neg (suc n) h l = omega arith

pub rem-neg : (v n : ℕ) → 0 < v → rem (neg v) n ≡ neg (v % n)
rem-neg zero n h = absurd (omega arith)
rem-neg (suc v) n h = refl

-- The order of the integers, as a test.
abbrev pub ltz : ℤ → ℤ → Bool
ltz (pos m) (pos n) = ltb m n
ltz (pos m) (negsuc n) = false
ltz (negsuc m) (pos n) = true
ltz (negsuc m) (negsuc n) = ltb n m

abbrev pub eqz : ℤ → ℤ → Bool
eqz (pos m) (pos n) = m == n
eqz (pos m) (negsuc n) = false
eqz (negsuc m) (pos n) = false
eqz (negsuc m) (negsuc n) = m == n

pub eqz→eq : (x y : ℤ) → eqz x y ≡ true → x ≡ y
eqz→eq (pos m) (pos n) h = ground arith
eqz→eq (pos m) (negsuc n) h = ground arith
eqz→eq (negsuc m) (pos n) h = ground arith
eqz→eq (negsuc m) (negsuc n) h = ground arith

pub eqz_self : (x : ℤ) → eqz x x ≡ true
eqz_self (pos m) = ground arith
eqz_self (negsuc m) = ground arith

pub eqz_comm : (x y : ℤ) → eqz x y ≡ eqz y x
eqz_comm (pos m) (pos n) = ground arith
eqz_comm (pos m) (negsuc n) = refl
eqz_comm (negsuc m) (pos n) = refl
eqz_comm (negsuc m) (negsuc n) = ground arith

-- Of two different integers one is less.
pub ltz_other : (x y : ℤ) → eqz x y ≡ false → ltz y x ≡ not (ltz x y)
ltz_other (pos m) (pos n) h = ground arith
ltz_other (pos m) (negsuc n) h = refl
ltz_other (negsuc m) (pos n) h = refl
ltz_other (negsuc m) (negsuc n) h = ground arith
