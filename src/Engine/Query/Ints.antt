-- ===== src/Engine/Query/Ints.antt =====
-- The records with an integer in a field, found by `wg_find_record_int` of
-- workloads/no_sql_db/wasm-src/dbquery.c.
use wasm_cloud_computing_ben.Prelude.{
  ℕ, zero, suc, ◌^◌, ◌<◌, ◌≡◌, refl, ap, Bool, true, false, if◌then◌else◌, ◌==◌, ◌&&◌, not, Option,
  none, some, List, [], ◌∷◌, arith, length, length-append, ◌++◌, ◌%◌, Bool-cases, inl, inr,
}
use wasm_cloud_computing_ben.Prelude.Int.{ℤ, pos, ltz, eqz, eqz→eq, eqz_self, eqz_comm}
use wasm_cloud_computing_ben.Engine.{State, dbfetch, dbstore, store_word, unmarked}
use wasm_cloud_computing_ben.Engine.Values.{
  isptr, encode_fullint_offset, wg_inttype, signed, fits_smallint, encode_smallint, decode_smallint,
  decode_fullint_offset, issmallint, isfullint, wg_decode_int, wg_get_encoded_type,
}
use wasm_cloud_computing_ben.Engine.Values.Integers.{smallint}
use wasm_cloud_computing_ben.Engine.Records.{wg_get_record_len, field_offset, wg_get_field}
use wasm_cloud_computing_ben.Engine.Records.Atomic.{is_special_record}
use wasm_cloud_computing_ben.Engine.Records.Scan.{wg_get_first_raw_record}
use wasm_cloud_computing_ben.Engine.Records.Scan.Layout.{first_or_null}
use wasm_cloud_computing_ben.Engine.Compare.{
  wg_equal, Decoders, greater_if, greater_int, compare_typed, wg_compare, wg_compare_rec_depth,
  compare_encoded,
}
use wasm_cloud_computing_ben.Engine.Compare.Ints.{compare_encoded-wg_decode_int}
use wasm_cloud_computing_ben.Engine.Query.{
  wg_cond_equal, is_equal, meets, wg_encode_query_param_int, wg_free_query_param, check_arglist,
  wg_find_record_int,
}
use wasm_cloud_computing_ben.Engine.Query.Follow.{Follows, Follows-append}
use wasm_cloud_computing_ben.Engine.Query.Find.{
  first_where, is_match, wg_find_record_lem, wg_find_record_first,
}

-- The word of a field holds an integer.
abbrev pub is_int : State → ℕ → ℕ → Bool
is_int s v w = eqz (wg_get_encoded_type true s w) wg_inttype && wg_decode_int true s w == v

-- A record with an integer in a field.
abbrev pub has_int : State → ℕ → ℕ → ℕ → Bool
has_int s f v r =
    ltz (pos f) (wg_get_record_len true s r) && is_int s v (wg_get_field true s r (pos f))

different : (x y : ℤ) → is_equal (greater_int x y) ≡ false
different x y = go (ltz y x)
  where
    go : (b : Bool) → is_equal (greater_if b) ≡ false
    go true = refl
    go false = refl

decoded_small :
    (s : State) (w : ℕ)
    → ((a : ℕ) → dbfetch s a < 2 ^ 32)
    → w < 2 ^ 32
    → wg_decode_int true s w < 2 ^ 32
unfolding wg_decode_int issmallint isfullint decode_smallint
decoded_small s w words small = ground (arith, words (decode_fullint_offset w))

nothing_freed : (v : ℕ) → fits_smallint v ≡ true → wg_free_query_param (encode_smallint v) ≡ none
unfolding wg_free_query_param encode_smallint isptr
nothing_freed v fits = ground arith

signed_iff : (v w : ℕ) → v < 2 ^ 32 → w < 2 ^ 32 → eqz (signed v) (signed w) ≡ (v == w)
signed_iff v w hv hw = ground arith

typed_differ :
    (d : Decoders) (s : State) (a b depth : ℕ)
    → eqz (wg_get_encoded_type true s b) (wg_get_encoded_type true s a) ≡ false
    → wg_compare d depth s a b
      ≡ greater_int (wg_get_encoded_type true s a) (wg_get_encoded_type true s b)
unfolding wg_compare compare_typed
typed_differ d s a b zero other = rw other refl
typed_differ d s a b (suc depth) other = rw other refl

module _ (d : Decoders) (s : State) (words : (a : ℕ) → dbfetch s a < 2 ^ 32) where
  equal_int :
      (v w : ℕ)
      → v < 2 ^ 32
      → w < 2 ^ 32
      → fits_smallint v ≡ true
      → is_equal (compare_encoded d s w (encode_smallint v)) ≡ is_int s v w
  unfolding compare_encoded
  equal_int v w hv hw fits =
      let (_, decoded, typed) = smallint s v hv fits in
      elim (Bool-cases (eqz (wg_get_encoded_type true s w) wg_inttype)) [
        | inl int ↦
            rw
              (
                compare_encoded-wg_decode_int d s w (encode_smallint v) (eqz→eq _ _ int) typed,
                decoded,
                signed_iff (wg_decode_int true s w) v (decoded_small s w words hw) hv,
                int,
              )
              (go (wg_decode_int true s w == v) (signed (wg_decode_int true s w)) (signed v))
        | inr other ↦
            let ne : (w == encode_smallint v) ≡ false =
              other_word (encode_smallint v) typed w other in
            rw
              (
                ne,
                typed_differ d s w (encode_smallint v) wg_compare_rec_depth
                    (rw (typed, eqz_comm wg_inttype (wg_get_encoded_type true s w)) other),
                other,
              )
              (different (wg_get_encoded_type true s w)
                (wg_get_encoded_type true s (encode_smallint v)))
      ]
    where
      go : (b : Bool) (x y : ℤ) → is_equal (if b then wg_equal else greater_int x y) ≡ b
      go true x y = refl
      go false x y = different x y

      other_word :
          (e : ℕ)
          → wg_get_encoded_type true s e ≡ wg_inttype
          → (w : ℕ) → eqz (wg_get_encoded_type true s w) wg_inttype ≡ false
          → (w == e) ≡ false
      other_word e t w other = elim (Bool-cases (w == e)) [
        | inl same ↦ let eq : w ≡ e = ground arith in cc (eqz_self wg_inttype)
        | inr ne ↦ ne
      ]

  field_small : (r f : ℕ) → wg_get_field true s r (pos f) < 2 ^ 32
  unfolding wg_get_field
  field_small r f = ground (arith, words (field_offset r f))

  meets_int :
      (r f v : ℕ)
      → v < 2 ^ 32
      → fits_smallint v ≡ true
      → check_arglist d s r
          (record { column = pos f; cond = wg_cond_equal; value = encode_smallint v } ∷ [])
        ≡ has_int s f v r
  unfolding check_arglist meets
  meets_int r f v hv fits =
      let w = wg_get_field true s r (pos f) in
      elim (Bool-cases (ltz (pos f) (wg_get_record_len true s r))) [
        | inr short ↦ rw short refl
        | inl long ↦ rw (long, equal_int v w hv (field_small r f) fits) (go (is_int s v w))
      ]
    where
      go : (b : Bool) → (if b then true else false) ≡ b
      go true = refl
      go false = refl

  first_where_ext :
      (p q : ℕ → Bool) (rs : List ℕ) → ((r : ℕ) → p r ≡ q r) → first_where p rs ≡ first_where q rs
  first_where_ext p q [] same = refl
  first_where_ext p q (r ∷ rs) same = rw (same r, first_where_ext p q rs same) refl

  same_match :
      (f v : ℕ) (rs : List ℕ)
      → v < 2 ^ 32
      → fits_smallint v ≡ true
      → first_where
          (is_match d s
            (record { column = pos f; cond = wg_cond_equal; value = encode_smallint v } ∷ []))
          rs
        ≡ first_where (λ r. not (is_special_record s r) && has_int s f v r) rs
  same_match f v rs hv fits =
      first_where_ext
        (is_match d s
          (record { column = pos f; cond = wg_cond_equal; value = encode_smallint v } ∷ []))
        (λ r. not (is_special_record s r) && has_int s f v r) rs
        (λ r. ap (λ b. not (is_special_record s r) && b) (meets_int r f v hv fits))

  -- `wg_find_record_int` with WG_COND_EQUAL and an integer whose top four bits are equal, on a column
  -- without an index: with no last record it returns the first record of the scan that is not special and
  -- has that integer in the field, in a word or in an object, with a last record the first such one behind
  -- it, or NULL if there is none. One more round than there are records is enough, and it frees nothing.
  pub wg_find_record_int_lem :
      (dptr : Option ℕ) (xs rs : List ℕ) (rounds fuel f v lastrecord : ℕ)
      → v < 2 ^ 32
      → fits_smallint v ≡ true
      → wg_get_first_raw_record fuel true s ≡ some (first_or_null (xs ++ (lastrecord ∷ rs)))
      → Follows fuel s (xs ++ (lastrecord ∷ rs))
      → length (xs ++ (lastrecord ∷ rs)) < rounds
      → let found =
          λ (l : List ℕ). first_where (λ r. not (is_special_record s r) && has_int s f v r) l in
        (wg_find_record_int d dptr rounds fuel s (pos f) wg_cond_equal v 0
          ≡ (some (found (xs ++ (lastrecord ∷ rs))), none))
        × (wg_find_record_int d dptr rounds fuel s (pos f) wg_cond_equal v lastrecord
            ≡ (some (found rs), none))
  unfolding wg_find_record_int wg_encode_query_param_int
  wg_find_record_int_lem dptr xs rs rounds fuel f v lastrecord hv fits first follows long =
      let all = xs ++ (lastrecord ∷ rs) in
      let enc = encode_smallint v in
      let behind = Follows-append fuel s xs (lastrecord ∷ rs) follows in
      let short : length rs < rounds = omega (arith, length-append xs (lastrecord ∷ rs)) in
      let kept = nothing_freed v fits in
      (
        rw
            (
              fits,
              wg_find_record_first d all rounds fuel s (pos f) wg_cond_equal enc first follows long,
              same_match f v all hv fits,
              kept,
            )
            refl,
        rw
            (
              fits,
              wg_find_record_lem d rs rounds fuel s (pos f) wg_cond_equal enc lastrecord behind
                  short,
              same_match f v rs hv fits,
              kept,
            )
            refl,
      )

-- What `wg_encode_query_param_int` allocates for an integer, at an offset that is a multiple of four,
-- `wg_free_query_param` frees, and nothing else.
pub wg_free_query_param-wg_encode_query_param_int :
    (s : State) (offset v : ℕ)
    → offset % 4 ≡ 0
    → v < 2 ^ 32
    → let (enc, t) = wg_encode_query_param_int (some offset) s v in
      (wg_free_query_param enc ≡ (if fits_smallint v then none else some offset))
      × (wg_decode_int true t enc ≡ v)
unfolding wg_free_query_param wg_encode_query_param_int encode_fullint_offset decode_fullint_offset
    isptr unmarked wg_decode_int issmallint isfullint dbfetch dbstore store_word
wg_free_query_param-wg_encode_query_param_int s offset v aligned hv =
    elim (Bool-cases (fits_smallint v)) [
      | inl fits ↦
          let (_, decoded, _) = smallint s v hv fits in rw fits (nothing_freed v fits, decoded)
      | inr wide ↦ rw wide (ground arith)
    ]
