-- ===== src/Engine/Compare.antt =====
-- The comparison of encoded values of workloads/no_sql_db/wasm-src/dbcompare.c and dbcompare.h. The
-- database pointer is valid, so `dbcheck` answers true. Child databases (USE_CHILD_DB) are not compiled in.
pub mod Parts
pub mod Marks
pub mod Flip
pub mod Ints
use wasm_cloud_computing_ben.Prelude.{
  ℕ, zero, suc, ◌+◌, ◌-◌, ◌%◌, Bool, true, false, if◌then◌else◌, ltb, ◌==◌, Option, none, some,
  List, [], ◌∷◌, length, min, take,
}
use wasm_cloud_computing_ben.Prelude.Int.{ℤ, pos, negsuc, to_u32, ltz, eqz}
use wasm_cloud_computing_ben.Engine.{State, dbfetch}
use wasm_cloud_computing_ben.Engine.Values.{
  wg_recordtype, wg_inttype, wg_strtype, wg_chartype, wg_fixpointtype, wg_datetype, wg_timetype,
  wg_vartype, signed, shift_right, wg_decode_int, wg_decode_char, wg_decode_date, wg_decode_time,
  wg_decode_var, wg_get_encoded_type,
}
use wasm_cloud_computing_ben.Engine.Records.{wg_get_record_len, wg_get_field}

abbrev pub wg_blobtype : ℤ
wg_blobtype = pos 8

-- `WG_EQUAL`, `WG_GREATER` and `WG_LESSTHAN`.
pub data Comparison : Type 0 where
  wg_equal wg_greater wg_lessthan : Comparison

-- The other way round.
abbrev pub flip : Comparison → Comparison
flip wg_equal = wg_equal
flip wg_greater = wg_lessthan
flip wg_lessthan = wg_greater

-- The machine's doubles: their comparisons, the quotient of an `int` by FIXPOINTDIVISOR, which is 10000.0, and
-- the double whose bits two words hold. The strings of dbdata.c are arguments: the characters of a string
-- without the byte 0 that ends them, the bytes of a blob, and the prefix of an URI or the type of an XML literal,
-- which may be NULL.
pub record Decoders : Type 1 where
  pub Double : Type 0
  pub double_eqb : Double → Double → Bool
  pub double_gtb : Double → Double → Bool
  pub fixed : ℤ → Double
  pub of_words : ℕ → ℕ → Double
  pub text : ℤ → State → ℕ → List ℕ
  pub extra : ℤ → State → ℕ → Option (List ℕ)

-- `x > y ? WG_GREATER : WG_LESSTHAN`
abbrev pub greater_if : Bool → Comparison
greater_if true = wg_greater
greater_if false = wg_lessthan

abbrev pub greater_int : ℤ → ℤ → Comparison
greater_int x y = greater_if (ltz y x)

-- `strcmp`, on the bytes as `unsigned char`.
abbrev pub strcmp : List ℕ → List ℕ → Comparison
strcmp [] [] = wg_equal
strcmp [] (y ∷ ys) = wg_lessthan
strcmp (x ∷ xs) [] = wg_greater
strcmp (x ∷ xs) (y ∷ ys) = if x == y then strcmp xs ys else greater_if (ltb y x)

abbrev pub or_else : Comparison → Comparison → Comparison
or_else wg_equal d = d
or_else wg_greater d = wg_greater
or_else wg_lessthan d = wg_lessthan

-- Blobs: `memcmp` on the shorter length, then the lengths.
unfoldable pub compare_blobs : List ℕ → List ℕ → Comparison
compare_blobs xs ys =
    let n = min (length xs) (length ys) in
    or_else (strcmp (take n xs) (take n ys))
      (if length xs == length ys then wg_equal else greater_if (ltb (length ys) (length xs)))

-- The extra information: a missing one is not compared with an empty one.
unfoldable pub compare_extra : Option (List ℕ) → Option (List ℕ) → Comparison
compare_extra none none = wg_equal
compare_extra (some []) none = wg_equal
compare_extra (some (x ∷ xs)) none = wg_greater
compare_extra none (some []) = wg_equal
compare_extra none (some (y ∷ ys)) = wg_lessthan
compare_extra (some xs) (some ys) = strcmp xs ys

-- The string that a character makes; the character 0 makes the empty one.
unfoldable pub char_text : ℤ → List ℕ
char_text c = let byte = to_u32 c % 256 in if byte == 0 then [] else byte ∷ []

-- `deca>decb ? WG_GREATER : WG_LESSTHAN` for dates, times, variables and what else is above a fixpoint.
unfoldable pub compare_dates : ℤ → ℕ → ℕ → Comparison
compare_dates type a b =
    if eqz type wg_datetype
    then greater_int (wg_decode_date true a) (wg_decode_date true b)
    else if eqz type wg_timetype
    then greater_int (wg_decode_time true a) (wg_decode_time true b)
    else if eqz type wg_vartype
    then greater_int (signed (wg_decode_var true a)) (signed (wg_decode_var true b))
    else greater_int (signed a) (signed b)

unfoldable pub compare_ints : State → ℕ → ℕ → Comparison
compare_ints s a b =
    let deca = signed (wg_decode_int true s a) in
    let decb = signed (wg_decode_int true s b) in
    if eqz deca decb then wg_equal else greater_int deca decb

-- `n` is how many fields are left, `i` the next one.
unfoldable pub compare_fields : (ℕ → ℕ → Comparison) → State → ℕ → ℕ → ℕ → ℕ → Comparison
compare_fields compare s reca recb zero i = wg_equal
compare_fields compare s reca recb (suc n) i =
    let elema = wg_get_field true s reca (pos i) in
    let elemb = wg_get_field true s recb (pos i) in
    let rest = compare_fields compare s reca recb n (i + 1) in
    if elema == elemb then rest else or_else (compare elema elemb) rest

abbrev pub field_count : ℤ → ℕ
field_count (pos n) = n
field_count (negsuc n) = 0

-- The order of two addresses in the segment is that of their offsets.
unfoldable pub compare_records : Option (ℕ → ℕ → Comparison) → State → ℕ → ℕ → Comparison
compare_records none s reca recb = greater_if (ltb recb reca)
compare_records (some compare) s reca recb =
    let lena = wg_get_record_len true s reca in
    let lenb = wg_get_record_len true s recb in
    if eqz lena lenb
    then compare_fields compare s reca recb (field_count lena) 0
    else greater_int lena lenb

abbrev pub wg_compare_rec_depth : ℕ
wg_compare_rec_depth = 7

module _ (d : Decoders) where
  open d use {double_eqb, double_gtb, fixed, of_words, text, extra}

  -- 0 is the quotient of 0.
  unfoldable pub wg_decode_fixpoint : ℕ → d.Double
  wg_decode_fixpoint value =
      if value % 256 == 0xf then fixed (signed (shift_right 256 value)) else fixed (pos 0)

  unfoldable pub wg_decode_double : State → ℕ → d.Double
  wg_decode_double s value =
      if value % 8 == 2
      then of_words (dbfetch s (value - value % 8)) (dbfetch s (value - value % 8 + 4))
      else fixed (pos 0)

  unfoldable pub compare_fixpoints : ℕ → ℕ → Comparison
  compare_fixpoints a b = greater_if (double_gtb (wg_decode_fixpoint a) (wg_decode_fixpoint b))

  unfoldable pub compare_doubles : State → ℕ → ℕ → Comparison
  compare_doubles s a b =
      let deca = wg_decode_double s a in
      let decb = wg_decode_double s b in
      if double_eqb deca decb then wg_equal else greater_if (double_gtb deca decb)

  unfoldable pub compare_texts : ℤ → State → ℕ → ℕ → Comparison
  compare_texts type s a b =
      if eqz type wg_chartype
      then strcmp (char_text (wg_decode_char true a)) (char_text (wg_decode_char true b))
      else or_else (compare_extra (extra type s a) (extra type s b)) (
          if eqz type wg_blobtype
          then compare_blobs (text type s a) (text type s b)
          else strcmp (text type s a) (text type s b))

  -- Two values of the same type; `deeper` compares the fields of records, if the depth allows that.
  unfoldable pub compare_same : ℤ → Option (ℕ → ℕ → Comparison) → State → ℕ → ℕ → Comparison
  compare_same type deeper s a b =
      if ltz wg_chartype type
      then if ltz wg_fixpointtype type then compare_dates type a b else compare_fixpoints a b
      else if ltz type wg_strtype
      then if eqz type wg_recordtype
        then compare_records deeper s a b
        else if eqz type wg_inttype
        then compare_ints s a b
        else compare_doubles s a b
      else compare_texts type s a b

  unfoldable pub compare_typed : Option (ℕ → ℕ → Comparison) → State → ℕ → ℕ → Comparison
  compare_typed deeper s a b =
      let typea = wg_get_encoded_type true s a in
      let typeb = wg_get_encoded_type true s b in
      if eqz typeb typea then compare_same typea deeper s a b else greater_int typea typeb

  unfoldable pub wg_compare : ℕ → State → ℕ → ℕ → Comparison
  wg_compare zero s a b = compare_typed none s a b
  wg_compare (suc depth) s a b = compare_typed (some (wg_compare depth s)) s a b

  -- The macro `WG_COMPARE`.
  unfoldable pub compare_encoded : State → ℕ → ℕ → Comparison
  compare_encoded s a b = if a == b then wg_equal else wg_compare wg_compare_rec_depth s a b
