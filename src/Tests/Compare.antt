-- ===== src/Tests/Compare.antt =====
-- Values with whole numbers as doubles and no strings.
use wasm_cloud_computing_ben.Prelude.{
  ◌∙◌, ℕ, ◌<◌, ◌≡◌, ◌==◌, ◌⊎◌, inl, inr, if◌then◌else◌, refl, true, [], none, arith,
}
use wasm_cloud_computing_ben.Prelude.Int.{ℤ, pos, ltz, eqz, eqz_comm, ltz_other}
use wasm_cloud_computing_ben.Engine.{State, dbfetch, unmarked}
use wasm_cloud_computing_ben.Engine.Values.{
  wg_recordtype, isvar, issmallint, immediate_type, pointer_type, wg_get_encoded_type,
}
use wasm_cloud_computing_ben.Engine.Records.{
  wg_get_record_len, getusedobjectwantedgintsnr, wg_get_field, is_wrong_field, field_offset,
}
use wasm_cloud_computing_ben.Engine.Compare.{
  Decoders, wg_equal, wg_lessthan, compare_records, compare_same, compare_typed, wg_compare,
  compare_encoded,
}
use wasm_cloud_computing_ben.Engine.Compare.Flip.{AreValues, IsOrdered, compare_encoded-flip}

abbrev pub whole_numbers : Decoders
whole_numbers = record {
  Double = ℤ;
  double_eqb = eqz;
  double_gtb = λ x y. ltz y x;
  fixed = λ i. i;
  of_words = λ low high. pos low;
  text = λ type s w. [];
  extra = λ type s w. none;
}

-- A record of two fields at 112 with the fields 30 and NULL, and a record of one field at 160 with 30.
abbrev record_words : ℕ → ℕ
record_words a =
    if a == 112
    then 20
    else if a == 124
    then 243
    else if a == 160
    then 16
    else if a == 172
    then 243
    else 0

abbrev record_state : State
record_state = record {
  segment = record { memory = record_words; free = 192; size = 50000 };
  area = record {
    objlength = 0;
    freelist = 0;
    last_subarea_index = 0;
    subarea_array = λ i. record { size = 96; offset = 96; alignedsize = 96; alignedoffset = 96 };
    freebuckets = 2000;
  };
}

abbrev IsOne : ℕ → Type 0
IsOne w = (w ≡ 0) ⊎ ((w ≡ 243) ⊎ ((w ≡ 112) ⊎ (w ≡ 160)))

ones_field :
    (r i n : ℕ)
    → IsOne r
    → wg_get_encoded_type true record_state r ≡ wg_recordtype
    → wg_get_record_len true record_state r ≡ pos n
    → i < n
    → IsOne (wg_get_field true record_state r (pos i))
unfolding wg_get_encoded_type immediate_type pointer_type isvar issmallint wg_get_record_len
    getusedobjectwantedgintsnr unmarked dbfetch wg_get_field is_wrong_field field_offset
ones_field r i n one typed len inside = ground arith

ones : AreValues record_state IsOne
unfolding dbfetch
ones = record { value = λ w one. ground arith; field = ones_field }

ordered : IsOrdered whole_numbers
ordered = record {
  eq_comm = eqz_comm;
  other = λ x y e. ltz_other y x (eqz_comm y x ∙ e);
  quotients = λ x y hx hy e. e;
}

compare_encoded-flip_example :
    (compare_encoded whole_numbers record_state 160 112 ≡ wg_lessthan)
    × (compare_encoded whole_numbers record_state 112 112 ≡ wg_equal)
unfolding compare_encoded wg_compare compare_typed compare_same compare_records wg_get_encoded_type
    pointer_type wg_get_record_len getusedobjectwantedgintsnr unmarked dbfetch
compare_encoded-flip_example =
    compare_encoded-flip record_state IsOne ones whole_numbers ordered 112 160
      (inr (inr (inl refl))) (inr (inr (inr refl)))
