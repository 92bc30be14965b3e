-- ===== src/Engine/Compare/Parts.antt =====
-- The parts of the comparison of dbcompare.c, the other way round.
use wasm_cloud_computing_ben.Prelude.{
  ℕ, ◌≡◌, refl, Bool, true, false, not, if◌then◌else◌, ltb, ◌==◌, Option, none, some, List, [], ◌∷◌,
  arith, length, min, take, Bool-cases, inl, inr,
}
use wasm_cloud_computing_ben.Prelude.Int.{ℤ, ltz, eqz, eqz_comm, ltz_other}
use wasm_cloud_computing_ben.Engine.{State}
use wasm_cloud_computing_ben.Engine.Values.{signed, wg_decode_int}
use wasm_cloud_computing_ben.Engine.Compare.{
  Comparison, wg_equal, wg_greater, wg_lessthan, flip, greater_if, greater_int, strcmp, or_else,
  compare_blobs, compare_extra, compare_ints,
}

pub greater_if-flip : (b c : Bool) → b ≡ not c → greater_if b ≡ flip (greater_if c)
greater_if-flip b true h = rw h refl
greater_if-flip b false h = rw h refl

pub greater_int-flip : (x y : ℤ) → eqz x y ≡ false → greater_int y x ≡ flip (greater_int x y)
greater_int-flip x y h = greater_if-flip (ltz x y) (ltz y x) (ltz_other y x (rw (eqz_comm y x) h))

pub or_else-flip : (c d : Comparison) → or_else (flip c) (flip d) ≡ flip (or_else c d)
or_else-flip wg_equal d = refl
or_else-flip wg_greater d = refl
or_else-flip wg_lessthan d = refl

pub or_else-flips :
    (c c' d d' : Comparison) → c' ≡ flip c → d' ≡ flip d → or_else c' d' ≡ flip (or_else c d)
or_else-flips c c' d d' e f = rw (e, f) (or_else-flip c d)

pub greater_if-ltb-flip :
    (x y : ℕ)
    → (if y == x then wg_equal else greater_if (ltb x y))
      ≡ flip (if x == y then wg_equal else greater_if (ltb y x))
greater_if-ltb-flip x y = ground arith

pub strcmp-flip : (xs ys : List ℕ) → strcmp ys xs ≡ flip (strcmp xs ys)
strcmp-flip [] [] = refl
strcmp-flip [] (y ∷ ys) = refl
strcmp-flip (x ∷ xs) [] = refl
strcmp-flip (x ∷ xs) (y ∷ ys) = ground (arith, strcmp-flip xs ys)

pub compare_blobs-flip : (xs ys : List ℕ) → compare_blobs ys xs ≡ flip (compare_blobs xs ys)
unfolding compare_blobs
compare_blobs-flip xs ys =
    let n : min (length ys) (length xs) ≡ min (length xs) (length ys) = omega arith in
    rw n (
      or_else-flips _ _ _ _
        (strcmp-flip (take (min (length xs) (length ys)) xs)
          (take (min (length xs) (length ys)) ys))
        (greater_if-ltb-flip (length xs) (length ys)))

pub compare_extra-flip : (x y : Option (List ℕ)) → compare_extra y x ≡ flip (compare_extra x y)
unfolding compare_extra
compare_extra-flip none none = refl
compare_extra-flip none (some []) = refl
compare_extra-flip none (some (y ∷ ys)) = refl
compare_extra-flip (some []) none = refl
compare_extra-flip (some (x ∷ xs)) none = refl
compare_extra-flip (some xs) (some ys) = strcmp-flip xs ys

pub compare_ints-flip : (s : State) (a b : ℕ) → compare_ints s b a ≡ flip (compare_ints s a b)
unfolding compare_ints
compare_ints-flip s a b =
    let x = signed (wg_decode_int true s a) in
    let y = signed (wg_decode_int true s b) in
    elim (Bool-cases (eqz x y)) [
      | inl same ↦ rw (eqz_comm y x, same) refl
      | inr other ↦ rw (eqz_comm y x, other) (greater_int-flip x y other)
    ]
