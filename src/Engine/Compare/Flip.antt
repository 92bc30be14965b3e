-- ===== src/Engine/Compare/Flip.antt =====
-- Two encoded values compared the other way round.
use wasm_cloud_computing_ben.Prelude.{
  ℕ, zero, suc, ◌+◌, ◌%◌, ◌^◌, ◌<◌, ◌≡◌, ◌≢◌, refl, sym, ◌∙◌, true, false, not, if◌then◌else◌, ltb,
  ◌==◌, Option, none, some, arith, Bool-cases, inl, inr,
}
use wasm_cloud_computing_ben.Prelude.Int.{ℤ, pos, negsuc, ltz, eqz, eqz→eq, eqz_comm}
use wasm_cloud_computing_ben.Engine.{State}
use wasm_cloud_computing_ben.Engine.Values.{
  wg_recordtype, wg_inttype, wg_strtype, wg_chartype, wg_fixpointtype, signed, shift_right,
  wg_decode_char, wg_get_encoded_type,
}
use wasm_cloud_computing_ben.Engine.Records.{wg_get_record_len, wg_get_field}
use wasm_cloud_computing_ben.Engine.Compare.{
  wg_blobtype, Comparison, wg_equal, flip, Decoders, char_text, compare_dates, compare_fields,
  field_count, compare_records, compare_fixpoints, wg_decode_fixpoint, wg_decode_double,
  compare_doubles, compare_texts, compare_same, compare_typed, wg_compare, wg_compare_rec_depth,
  compare_encoded,
}
use wasm_cloud_computing_ben.Engine.Compare.Parts.{
  greater_if-flip, greater_int-flip, or_else-flips, strcmp-flip, compare_blobs-flip,
  compare_extra-flip, compare_ints-flip,
}
use wasm_cloud_computing_ben.Engine.Compare.Marks.{fixpoint_marks, IsValue, late, dates-flip}

-- The `int`s of 24 bits.
abbrev pub IsShort : ℤ → Type 0
IsShort (pos n) = n < 2 ^ 23
IsShort (negsuc n) = n < 2 ^ 23

-- Doubles without those that are not numbers; the quotients of different `int`s of 24 bits by 10000.0 are
-- different.
pub record IsOrdered (d : Decoders) : Type 0 where
  pub eq_comm : (x y : d.Double) → d.double_eqb x y ≡ d.double_eqb y x
  pub other :
      (x y : d.Double) → d.double_eqb x y ≡ false → d.double_gtb y x ≡ not (d.double_gtb x y)
  pub quotients :
      (x y : ℤ)
      → IsShort x
      → IsShort y
      → eqz x y ≡ false
      → d.double_eqb (d.fixed x) (d.fixed y) ≡ false

shift_right-IsShort : (w : ℕ) → w < 2 ^ 32 → IsShort (signed (shift_right 256 w))
shift_right-IsShort w small = ground arith

shift_right_apart :
    (a b : ℕ)
    → a < 2 ^ 32
    → b < 2 ^ 32
    → a ≢ b
    → a % 256 ≡ 0xf
    → b % 256 ≡ 0xf
    → eqz (signed (shift_right 256 a)) (signed (shift_right 256 b)) ≡ false
shift_right_apart a b ha hb ne m l = ground arith

-- A set of values that has the fields of its records.
pub record AreValues (s : State) (V : ℕ → Type 0) : Type 0 where
  pub value : (w : ℕ) → V w → IsValue s w
  pub field :
      (r i n : ℕ)
      → V r
      → wg_get_encoded_type true s r ≡ wg_recordtype
      → wg_get_record_len true s r ≡ pos n
      → i < n
      → V (wg_get_field true s r (pos i))

abbrev IsFlipped : (ℕ → Type 0) → (ℕ → ℕ → Comparison) → Type 0
IsFlipped V compare = (a b : ℕ) → V a → V b → a ≢ b → compare b a ≡ flip (compare a b)

abbrev IsDeeper : (ℕ → Type 0) → Option (ℕ → ℕ → Comparison) → Type 0
IsDeeper V none = Unit
IsDeeper V (some compare) = IsFlipped V compare

module _ (s : State) (V : ℕ → Type 0) (values : AreValues s V) where
  fields-flip :
      (compare : ℕ → ℕ → Comparison) (a b n i : ℕ)
      → IsFlipped V compare
      → ((j : ℕ)
          → j < i + n
          → V (wg_get_field true s a (pos j)) × V (wg_get_field true s b (pos j)))
      → compare_fields compare s b a n i ≡ flip (compare_fields compare s a b n i)
  unfolding compare_fields
  fields-flip compare a b zero i flipped fields = refl
  fields-flip compare a b (suc n) i flipped fields =
      let x = wg_get_field true s a (pos i) in
      let y = wg_get_field true s b (pos i) in
      let (vx, vy) = fields i (omega arith) in
      let rest = fields-flip compare a b n (i + 1) flipped (λ j h. fields j (omega arith)) in
      elim (Bool-cases (x == y)) [
        | inl same ↦ let turned : (y == x) ≡ true = ground arith in rw (same, turned) rest
        | inr other ↦
            let turned : (y == x) ≡ false = ground arith in
            let ne : x ≢ y = λ e. ground arith in
            rw (other, turned) (or_else-flips _ _ _ _ (flipped x y vx vy ne) rest)
      ]

  records-flip :
      (deeper : Option (ℕ → ℕ → Comparison)) (a b : ℕ)
      → IsDeeper V deeper
      → V a
      → V b
      → a ≢ b
      → wg_get_encoded_type true s a ≡ wg_recordtype
      → wg_get_encoded_type true s b ≡ wg_recordtype
      → compare_records deeper s b a ≡ flip (compare_records deeper s a b)
  unfolding compare_records
  records-flip none a b deep va vb ne ta tb = greater_if-flip (ltb a b) (ltb b a) (ground arith)
  records-flip (some compare) a b deep va vb ne ta tb =
      let x = wg_get_record_len true s a in
      let y = wg_get_record_len true s b in
      elim (Bool-cases (eqz x y)) [
        | inr other ↦ rw (eqz_comm y x, other) (greater_int-flip x y other)
        | inl same ↦
            rw (eqz_comm y x, same, ← eqz→eq x y same)
              (fields-flip compare a b (field_count x) 0 deep (λ j h.
                (field_in a va ta x refl j h, field_in b vb tb x (sym (eqz→eq x y same)) j h)))
      ]
    where
      field_in :
          (r : ℕ)
          → V r
          → wg_get_encoded_type true s r ≡ wg_recordtype
          → (len : ℤ) → wg_get_record_len true s r ≡ len
          → (j : ℕ) → j < 0 + field_count len
          → V (wg_get_field true s r (pos j))
      field_in r v t (pos n) e j h = values.field r j n v t e (omega arith)
      field_in r v t (negsuc n) e j h = absurd (omega arith)

  module _ (d : Decoders) (ordered : IsOrdered d) where
    doubles-flip : (a b : ℕ) → compare_doubles d s b a ≡ flip (compare_doubles d s a b)
    unfolding compare_doubles
    doubles-flip a b =
        let x = wg_decode_double d s a in
        let y = wg_decode_double d s b in
        elim (Bool-cases (d.double_eqb x y)) [
          | inl same ↦ rw (ordered.eq_comm y x, same) refl
          | inr other ↦
              rw (ordered.eq_comm y x, other) (greater_if-flip _ _ (ordered.other x y other))
        ]

    texts-flip :
        (type : ℤ) (a b : ℕ) → compare_texts d type s b a ≡ flip (compare_texts d type s a b)
    unfolding compare_texts
    texts-flip type a b = elim (Bool-cases (eqz type wg_chartype)) [
      | inl char ↦
          rw char
            (strcmp-flip (char_text (wg_decode_char true a)) (char_text (wg_decode_char true b)))
      | inr string ↦ rw string (
          or_else-flips _ _ _ _ (compare_extra-flip (d.extra type s a) (d.extra type s b))
            (elim (Bool-cases (eqz type wg_blobtype)) [
              | inl blob ↦ rw blob (compare_blobs-flip (d.text type s a) (d.text type s b))
              | inr other ↦ rw other (strcmp-flip (d.text type s a) (d.text type s b))
            ]))
    ]

    fixpoints-flip :
        (a b : ℕ)
        → V a
        → V b
        → a ≢ b
        → a % 256 ≡ 0xf
        → b % 256 ≡ 0xf
        → compare_fixpoints d b a ≡ flip (compare_fixpoints d a b)
    unfolding compare_fixpoints wg_decode_fixpoint
    fixpoints-flip a b va vb ne m l =
        let x = signed (shift_right 256 a) in
        let y = signed (shift_right 256 b) in
        let ha = (values.value a va).0 in
        let hb = (values.value b vb).0 in
        let ma : (a % 256 == 0xf) ≡ true = ground arith in
        let mb : (b % 256 == 0xf) ≡ true = ground arith in
        let other =
          ordered.quotients x y (shift_right-IsShort a ha) (shift_right-IsShort b hb)
            (shift_right_apart a b ha hb ne m l) in
        rw (ma, mb) (greater_if-flip _ _ (ordered.other (d.fixed x) (d.fixed y) other))

    above_chars-flip :
        (type : ℤ) (a b : ℕ)
        → V a
        → V b
        → a ≢ b
        → wg_get_encoded_type true s a ≡ type
        → wg_get_encoded_type true s b ≡ type
        → ltz wg_chartype type ≡ true
        → (if ltz wg_fixpointtype type then compare_dates type b a else compare_fixpoints d b a)
          ≡ flip
              (if ltz wg_fixpointtype type then compare_dates type a b else compare_fixpoints d a b)
    above_chars-flip (negsuc n) a b va vb ne ta tb above = ground arith
    above_chars-flip (pos n) a b va vb ne ta tb above =
        let valid = values.value a va in
        let valid' = values.value b vb in
        elim (Bool-cases (ltz wg_fixpointtype (pos n))) [
          | inl late_type ↦
              let over : 10 < n = ground arith in
              rw late_type (
                dates-flip a b (pos n) valid.0 valid'.0 ne (late s a n valid ta over)
                  (late s b n valid' tb over))
          | inr fix ↦
              let ten : n ≡ 10 = ground arith in
              rw fix (
                fixpoints-flip a b va vb ne (fixpoint_marks s a valid (rw (← ten) ta))
                  (fixpoint_marks s b valid' (rw (← ten) tb)))
        ]

    same-flip :
        (type : ℤ) (deeper : Option (ℕ → ℕ → Comparison)) (a b : ℕ)
        → IsDeeper V deeper
        → V a
        → V b
        → a ≢ b
        → wg_get_encoded_type true s a ≡ type
        → wg_get_encoded_type true s b ≡ type
        → compare_same d type deeper s b a ≡ flip (compare_same d type deeper s a b)
    unfolding compare_same
    same-flip type deeper a b deep va vb ne ta tb = elim (Bool-cases (ltz wg_chartype type)) [
      | inl above ↦ rw above (above_chars-flip type a b va vb ne ta tb above)
      | inr below ↦ elim (Bool-cases (ltz type wg_strtype)) [
        | inr string ↦ rw (below, string) (texts-flip type a b)
        | inl early ↦ elim (Bool-cases (eqz type wg_recordtype)) [
          | inl rec ↦
              let is_rec = eqz→eq type wg_recordtype rec in
              rw (below, early, rec)
                (records-flip deeper a b deep va vb ne (ta ∙ is_rec) (tb ∙ is_rec))
          | inr not_rec ↦ elim (Bool-cases (eqz type wg_inttype)) [
            | inl int ↦ rw (below, early, not_rec, int) (compare_ints-flip s a b)
            | inr double ↦ rw (below, early, not_rec, double) (doubles-flip a b)
          ]
        ]
      ]
    ]

    typed-flip :
        (deeper : Option (ℕ → ℕ → Comparison))
        → IsDeeper V deeper
        → IsFlipped V (compare_typed d deeper s)
    unfolding compare_typed
    typed-flip deeper deep a b va vb ne =
        let ta = wg_get_encoded_type true s a in
        let tb = wg_get_encoded_type true s b in
        elim (Bool-cases (eqz tb ta)) [
          | inl same ↦
              let e = eqz→eq tb ta same in
              rw (eqz_comm ta tb, same, e) (same-flip ta deeper a b deep va vb ne refl e)
          | inr other ↦ rw (eqz_comm ta tb, other) (greater_int-flip ta tb (eqz_comm ta tb ∙ other))
        ]

    compare-flip : (depth : ℕ) → IsFlipped V (wg_compare d depth s)
    unfolding wg_compare
    compare-flip zero = typed-flip none tt
    compare-flip (suc depth) = typed-flip (some (wg_compare d depth s)) (compare-flip depth)

    -- Without doubles that are not numbers, with doubles in which different `int`s of 24 bits have different
    -- quotients by 10000.0, and on values whose strings have the types of strings: values compared the other way
    -- round give the opposite answer, and a value is equal to itself. This holds also for records, which are
    -- compared by their fields up to a depth of seven.
    pub compare_encoded-flip :
        (a b : ℕ)
        → V a
        → V b
        → (compare_encoded d s b a ≡ flip (compare_encoded d s a b))
          × (compare_encoded d s a a ≡ wg_equal)
    unfolding compare_encoded
    compare_encoded-flip a b va vb = (go, ground arith)
      where
        go : compare_encoded d s b a ≡ flip (compare_encoded d s a b)
        go = elim (Bool-cases (a == b)) [
          | inl same ↦ let turned : (b == a) ≡ true = ground arith in rw (same, turned) refl
          | inr other ↦
              let turned : (b == a) ≡ false = ground arith in
              let ne : a ≢ b = λ e. ground arith in
              rw (other, turned) (compare-flip wg_compare_rec_depth a b va vb ne)
        ]
