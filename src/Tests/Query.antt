-- ===== src/Tests/Query.antt =====
-- An area with one subarea: the start marker at 96, a record of two fields at 112, a free object at 136, a
-- record of one field at 160 and the end marker at 176. The first fields hold 30.
use wasm_cloud_computing_ben.Prelude.{
  ℕ, ◌+◌, ◌^◌, ◌<◌, ◌≡◌, ◌==◌, if◌then◌else◌, refl, true, [], ◌∷◌, none, some, arith,
}
use wasm_cloud_computing_ben.Engine.{
  State, Subarea, dbfetch, unmarked, isnormalusedobject, isfreeobject, getfreeobjectsize,
  getusedobjectsize,
}
use wasm_cloud_computing_ben.Engine.Values.{
  fits_smallint, decode_smallint, isvar, issmallint, immediate_type, wg_decode_int,
  wg_get_encoded_type,
}
use wasm_cloud_computing_ben.Engine.Records.{
  wg_get_record_len, getusedobjectwantedgintsnr, wg_get_field, is_wrong_field, field_offset,
}
use wasm_cloud_computing_ben.Engine.Records.Atomic.{is_special_record}
use wasm_cloud_computing_ben.Prelude.Int.{pos}
use wasm_cloud_computing_ben.Engine.Records.Scan.{
  find_subarea, size_at, wg_get_next_raw_record, wg_get_first_raw_record, scan, scan_round,
}
use wasm_cloud_computing_ben.Engine.Records.Scan.Layout.{
  used_block, free_block, IsLaid, AreLaid, records, all_records, first_or_null,
}
use wasm_cloud_computing_ben.Engine.Query.{wg_find_record_int, wg_cond_equal}
use wasm_cloud_computing_ben.Engine.Query.Follow.{Follows, AreLaid-Follows}
use wasm_cloud_computing_ben.Engine.Query.Ints.{wg_find_record_int_lem}
use wasm_cloud_computing_ben.Tests.Compare.{whole_numbers}

abbrev area_words : ℕ → ℕ
area_words a =
    if a == 96
    then 19
    else if a == 112
    then 20
    else if a == 124
    then 243
    else if a == 136
    then 25
    else if a == 160
    then 16
    else if a == 172
    then 243
    else if a == 176
    then 19
    else 0

abbrev subarea : Subarea
subarea = record { size = 96; offset = 96; alignedsize = 96; alignedoffset = 96 }

abbrev pub area_state : State
area_state = record {
  segment = record { memory = area_words; free = 192; size = 50000 };
  area = record {
    objlength = 0;
    freelist = 0;
    last_subarea_index = 0;
    subarea_array = λ i. subarea;
    freebuckets = 2000;
  };
}

all-IsLaid : IsLaid area_state 0 112 (used_block ∷ free_block ∷ used_block ∷ [])
unfolding IsLaid size_at dbfetch unmarked isnormalusedobject isfreeobject getfreeobjectsize
    getusedobjectsize find_subarea
all-IsLaid = (refl, (refl, (refl, (refl, omega arith, refl))))

none_behind : AreLaid area_state (0 + 1) []
unfolding AreLaid
none_behind = omega arith

pub both-Follow : Follows 5 area_state (112 ∷ 160 ∷ [])
unfolding records all_records size_at dbfetch unmarked getusedobjectsize getfreeobjectsize
both-Follow =
    AreLaid-Follows (used_block ∷ free_block ∷ used_block ∷ []) [] 5 area_state 112 0
      (λ j. omega arith) (omega arith) (omega arith) all-IsLaid none_behind

AreLaid-Follows_example : Follows 5 area_state (112 ∷ 160 ∷ [])
unfolding records all_records size_at dbfetch unmarked getusedobjectsize getfreeobjectsize
AreLaid-Follows_example =
    AreLaid-Follows (used_block ∷ free_block ∷ used_block ∷ []) [] 5 area_state 112 0
      (λ j. omega arith) (omega arith) (omega arith) all-IsLaid none_behind

pub first : wg_get_first_raw_record 5 true area_state ≡ some 112
unfolding wg_get_first_raw_record wg_get_next_raw_record scan scan_round size_at dbfetch unmarked
    isnormalusedobject isfreeobject getfreeobjectsize getusedobjectsize
first = refl

pub words : (a : ℕ) → dbfetch area_state a < 2 ^ 32
unfolding dbfetch
words a = ground arith

wg_find_record_int_lem_example :
    (wg_find_record_int whole_numbers none 3 5 area_state (pos 0) wg_cond_equal 30 0
      ≡ (some 112, none))
    × (wg_find_record_int whole_numbers none 3 5 area_state (pos 0) wg_cond_equal 30 112
        ≡ (some 160, none))
unfolding fits_smallint first_or_null is_special_record dbfetch wg_get_record_len
    getusedobjectwantedgintsnr unmarked wg_get_encoded_type wg_get_field is_wrong_field field_offset
    immediate_type isvar issmallint wg_decode_int decode_smallint
wg_find_record_int_lem_example =
    wg_find_record_int_lem whole_numbers area_state words none [] (160 ∷ []) 3 5 0 30 112
      (omega arith) refl first both-Follow (omega arith)
