-- ===== src/Prelude/Text.antt =====
-- `atoi` of the C library on a buffer of bytes: white space, a sign, digits.
use Prim.Native.Nat.{ℕ, ◌+◌, ◌-◌, ◌*◌, ◌^◌, ◌<◌}
use mathlib.Core.Path.{◌≡◌}
use mathlib.Core.Bool.{Bool, true, false, ◌&&◌, ◌||◌}
use mathlib.Core.Option.{Option, none, some}
use mathlib.Core.List.{List, [], ◌∷◌, ◌++◌}
use native.Mathlib.Omega.{arith}
use wasm_cloud_computing_ben.Prelude.Tests.{leb, ltb, ◌==◌, if◌then◌else◌}
use wasm_cloud_computing_ben.Prelude.Lists.{All}
use wasm_cloud_computing_ben.Prelude.Int.{ℤ, pos, neg}

abbrev pub is_digit : ℕ → Bool
is_digit c = leb b'0' c && leb c b'9'

abbrev pub is_space : ℕ → Bool
is_space c = c == b' ' || (leb 9 c && leb c 13)

-- The digits from here on. `none`: the buffer ends before they do, and C would read on behind it.
unfoldable pub digits_value : ℕ → List ℕ → Option ℕ
digits_value acc [] = none
digits_value acc (c ∷ cs) =
    let rest = digits_value (acc * 10 + (c - b'0')) cs in if is_digit c then rest else some acc

abbrev pub signed : Bool → ℕ → Option ℤ
signed negative n =
    if negative
    then (if leb n (2 ^ 31) then some (neg n) else none)
    else (if ltb n (2 ^ 31) then some (pos n) else none)

unfoldable pub signed_value : Bool → List ℕ → Option ℤ
unfolding digits_value
signed_value negative cs = elim (digits_value 0 cs) [ none ↦ none | some n ↦ signed negative n ]

unfoldable pub sign_and_digits : List ℕ → Option ℤ
sign_and_digits [] = none
sign_and_digits (c ∷ cs) =
    if c == b'-'
    then signed_value true cs
    else if c == b'+'
    then signed_value false cs
    else signed_value false (c ∷ cs)

-- `none` where C's `atoi` has no defined result: the number does not fit an `int`, or it is not
-- ended inside the buffer.
unfoldable pub atoi : List ℕ → Option ℤ
atoi [] = none
atoi (c ∷ cs) = let rest = atoi cs in if is_space c then rest else sign_and_digits (c ∷ cs)

-- The number that decimal digits stand for, the first digit being the most significant.
abbrev pub decimal : ℕ → List ℕ → ℕ
decimal acc [] = acc
decimal acc (c ∷ cs) = decimal (acc * 10 + (c - b'0')) cs

abbrev pub AllDigits : List ℕ → Type 0
AllDigits = All (λ c. is_digit c ≡ true)

pub digits_value-decimal :
    (ds : List ℕ) (acc c : ℕ) (rest : List ℕ)
    → AllDigits ds
    → is_digit c ≡ false
    → digits_value acc (ds ++ (c ∷ rest)) ≡ some (decimal acc ds)
unfolding digits_value
digits_value-decimal [] acc c rest h e = rw e
digits_value-decimal (d ∷ ds) acc c rest h e =
    rw h.0 (digits_value-decimal ds (acc * 10 + (d - b'0')) c rest h.1 e)

-- A buffer that starts with digits, ended by something else, holds their number.
pub atoi-decimal :
    (d : ℕ) (ds : List ℕ) (c : ℕ) (rest : List ℕ)
    → AllDigits (d ∷ ds)
    → is_digit c ≡ false
    → decimal 0 (d ∷ ds) < 2 ^ 31
    → atoi ((d ∷ ds) ++ (c ∷ rest)) ≡ some (pos (decimal 0 (d ∷ ds)))
unfolding atoi sign_and_digits signed_value
atoi-decimal d ds c rest h e small = ground (arith, digits_value-decimal (d ∷ ds) 0 c rest h e)

-- A buffer that starts with a minus sign and digits, ended by something else, holds the negation.
pub atoi-decimal-neg :
    (ds : List ℕ) (c : ℕ) (rest : List ℕ)
    → AllDigits ds
    → is_digit c ≡ false
    → decimal 0 ds < 2 ^ 31
    → atoi (b'-' ∷ (ds ++ (c ∷ rest))) ≡ some (neg (decimal 0 ds))
unfolding atoi sign_and_digits signed_value
atoi-decimal-neg ds c rest h e small = ground (arith, digits_value-decimal ds 0 c rest h e)
