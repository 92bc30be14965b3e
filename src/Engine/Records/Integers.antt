-- ===== src/Engine/Records/Integers.antt =====
-- An integer that is stored in a field of a record.
use wasm_cloud_computing_ben.Prelude.{ℕ, ◌^◌, ◌<◌, ◌≡◌, refl, true, false, arith}
use wasm_cloud_computing_ben.Prelude.Int.{pos}
use wasm_cloud_computing_ben.Engine.{State, dbfetch, dbstore, store_word}
use wasm_cloud_computing_ben.Engine.Values.{
  wg_inttype, fits_smallint, encode_smallint, wg_encode_int, wg_decode_int, wg_get_encoded_type,
}
use wasm_cloud_computing_ben.Engine.Values.Integers.{smallint}
use wasm_cloud_computing_ben.Engine.Records.{
  wg_get_record_len, field_offset, is_wrong_field, wg_get_field, wg_get_field_type,
  wg_set_new_field,
}
use wasm_cloud_computing_ben.Engine.Records.Created.{IsFresh}

is_right_field :
    (s : State) (r length f : ℕ)
    → wg_get_record_len true s r ≡ pos length
    → f < length
    → is_wrong_field s r f ≡ false
unfolding wg_get_record_len is_wrong_field
is_right_field s r length f len inside = ground arith

written :
    (s : State) (r f v : ℕ)
    → is_wrong_field s r f ≡ false
    → wg_get_field true s r (pos f) ≡ 0
    → (wg_set_new_field true s r (pos f) v ≡ (pos 0, dbstore s (field_offset r f) v))
      × (wg_get_field true (dbstore s (field_offset r f) v) r (pos f) ≡ v)
      × (wg_get_field_type true (dbstore s (field_offset r f) v) r (pos f)
          ≡ wg_get_encoded_type true (dbstore s (field_offset r f) v) v)
unfolding wg_set_new_field wg_get_field wg_get_field_type is_wrong_field field_offset dbfetch
    dbstore store_word
written s r f v right empty = ground arith

-- In a field of a new record, an integer whose top four bits are equal is stored without an error, the
-- field's type is that of integers, and its value is decoded to the same integer.
pub wg_decode_int-wg_get_field :
    (s : State) (r length f w : ℕ)
    → IsFresh s r length
    → f < length
    → w < 2 ^ 32
    → fits_smallint w ≡ true
    → (t : State) × (wg_set_new_field true s r (pos f) (wg_encode_int true s w).0 ≡ (pos 0, t))
      × (wg_get_field_type true t r (pos f) ≡ wg_inttype)
      × (wg_decode_int true t (wg_get_field true t r (pos f)) ≡ w)
wg_decode_int-wg_get_field s r length f w (len, zeros, outside) inside small fits =
    let right = is_right_field s r length f len inside in
    let (encoded, _, _) = smallint s w small fits in
    let t = dbstore s (field_offset r f) (encode_smallint w) in
    let (stored, read, type) = written s r f (encode_smallint w) right (zeros f inside) in
    let (_, decoded, is_int) = smallint t w small fits in
    (t, rw encoded stored, rw (type, is_int) refl, rw read decoded)
