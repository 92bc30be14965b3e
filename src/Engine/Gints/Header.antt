-- ===== src/Engine/Gints/Header.antt =====
-- The header of an object that `wg_alloc_gints` allocates.
use wasm_cloud_computing_ben.Prelude.{ℕ, zero, suc, ◌*◌, ◌%◌, ◌^◌, ◌≤◌, ◌<◌, ◌≡◌, ◌≢◌, some, arith}
use wasm_cloud_computing_ben.Engine.{
  State, used_bytes, dbfetch, dbstore, store_word, unmarked, makeusedobjectsizeprevused,
}
use wasm_cloud_computing_ben.Engine.Buckets.{mark_prevused}
use wasm_cloud_computing_ben.Engine.Varlen.{take_exact, take_split, take_victim}
use wasm_cloud_computing_ben.Engine.Gints.{
  returned, split_exact, victim_or_split, from_exact, take_fitting, from_var, wg_alloc_gints,
}

take_exact_header :
    (s : State) (i used wanted : ℕ)
    → 16 ≤ used
    → dbfetch (take_exact s i used wanted).1 (take_exact s i used wanted).0 ≡ unmarked wanted
unfolding take_exact mark_prevused dbfetch dbstore store_word makeusedobjectsizeprevused
take_exact_header s i used wanted some_bytes = ground arith

take_split_header :
    (s : State) (i used wanted : ℕ)
    → (take_split s i used wanted).0 ≢ 0
    → dbfetch (take_split s i used wanted).1 (take_split s i used wanted).0 ≡ unmarked wanted
unfolding take_split dbfetch dbstore store_word makeusedobjectsizeprevused
take_split_header s i used wanted nonzero = ground arith

take_victim_header :
    (s s1 : State) (used wanted r : ℕ)
    → take_victim s used wanted ≡ some (r, s1)
    → dbfetch s1 r ≡ unmarked wanted
unfolding take_victim dbfetch dbstore store_word makeusedobjectsizeprevused
take_victim_header s s1 used wanted r h = grind arith

split_exact_header :
    (s s1 : State) (rounds used wanted r : ℕ)
    → split_exact s rounds used wanted ≡ some (r, s1)
    → r ≢ 0
    → dbfetch s1 r ≡ unmarked wanted
unfolding split_exact
split_exact_header s s1 rounds used wanted r h nonzero = grind (arith, take_split_header)

from_exact_header :
    (s s1 : State) (used wanted r : ℕ)
    → from_exact s used wanted ≡ some (r, s1)
    → r ≢ 0
    → 16 ≤ used
    → dbfetch s1 r ≡ unmarked wanted
unfolding from_exact victim_or_split
from_exact_header s s1 used wanted r h nonzero some_bytes =
    grind (arith, take_exact_header, take_victim_header, split_exact_header)

from_var_header :
    (s s1 : State) (i used wanted r : ℕ)
    → from_var s i used wanted ≡ some (r, s1)
    → r ≢ 0
    → 16 ≤ used
    → dbfetch s1 r ≡ unmarked wanted
unfolding from_var take_fitting
from_var_header s s1 i used wanted r h nonzero some_bytes =
    grind (arith, take_exact_header, take_split_header)

used_bytes_some : (wanted : ℕ) → 16 ≤ used_bytes wanted
unfolding used_bytes
used_bytes_some wanted = ground arith

-- Every object that is allocated has a header with the number of bytes wanted and without a mark.
pub wg_alloc_gints_header :
    (fuel : ℕ) (s s1 : State) (nr r : ℕ)
    → wg_alloc_gints fuel s nr ≡ returned r s1
    → r ≢ 0
    → nr < 2 ^ 29
    → dbfetch s1 r ≡ 4 * nr
unfolding wg_alloc_gints unmarked
wg_alloc_gints_header zero s s1 nr r h nonzero small = ground arith
wg_alloc_gints_header (suc fuel) s s1 nr r h nonzero small =
    let exact : nr * 4 % 2 ^ 32 ≡ 4 * nr = omega arith in
    let same : unmarked (4 * nr) ≡ 4 * nr = ground arith in
    let some_bytes = used_bytes_some (4 * nr) in
    grind (arith, from_exact_header, from_var_header, wg_alloc_gints_header fuel)
