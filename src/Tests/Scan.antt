-- ===== src/Tests/Scan.antt =====
-- An area with one subarea: the start marker at 96, a record at 112, a free object at 136, a record at 160
-- and the end marker at 176.
use wasm_cloud_computing_ben.Prelude.{ℕ, ◌+◌, ◌==◌, if◌then◌else◌, refl, false, [], ◌∷◌, arith}
use wasm_cloud_computing_ben.Engine.{
  State, Subarea, dbfetch, unmarked, isnormalusedobject, isfreeobject, getfreeobjectsize,
  getusedobjectsize,
}
use wasm_cloud_computing_ben.Engine.Records.Scan.{find_subarea, size_at}
use wasm_cloud_computing_ben.Engine.Records.Scan.Layout.{
  used_block, free_block, IsLaid, AreLaid, first_object,
}

abbrev area_words : ℕ → ℕ
area_words a =
    if a == 96
    then 19
    else if a == 112
    then 20
    else if a == 136
    then 25
    else if a == 160
    then 16
    else if a == 176
    then 19
    else 0

abbrev subarea : Subarea
subarea = record { size = 96; offset = 96; alignedsize = 96; alignedoffset = 96 }

abbrev area_state : State
area_state = record {
  segment = record { memory = area_words; free = 192; size = 50000 };
  area = record {
    objlength = 0;
    freelist = 0;
    last_subarea_index = 0;
    subarea_array = λ i. subarea;
    freebuckets = 2000;
  };
}

behind-IsLaid :
    IsLaid area_state 0 (112 + size_at area_state 112 false) (free_block ∷ used_block ∷ [])
unfolding IsLaid size_at dbfetch unmarked isnormalusedobject isfreeobject getfreeobjectsize
    getusedobjectsize find_subarea
behind-IsLaid = (refl, (refl, (refl, omega arith, refl)))

all-AreLaid : AreLaid area_state 0 ((used_block ∷ free_block ∷ used_block ∷ []) ∷ [])
unfolding AreLaid IsLaid size_at dbfetch unmarked isnormalusedobject isfreeobject getfreeobjectsize
    getusedobjectsize find_subarea first_object
all-AreLaid =
    (omega arith, omega arith, (refl, (refl, (refl, (refl, omega arith, refl)))), omega arith)

none_behind : AreLaid area_state (0 + 1) []
unfolding AreLaid
none_behind = omega arith
