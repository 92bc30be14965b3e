-- ===== src/Tests/Hash.antt =====
-- A table of 389 slots with the word 12.
use wasm_cloud_computing_ben.Prelude.{ℕ, ◌*◌, ◌≤◌, ◌<◌, ◌≡◌, ◌≢◌, ◌⊎◌, refl, true, false, arith}
use wasm_cloud_computing_ben.Prelude.Int.{pos, neg}
use wasm_cloud_computing_ben.Engine.Hash.{DhashTable, dhash_size, wg_dhash_addkey, wg_dhash_haskey}
use wasm_cloud_computing_ben.Engine.Hash.Load.{dhash_size_lem}
use wasm_cloud_computing_ben.Engine.Hash.Member.{
  IsProbed, wg_dhash_haskey-wg_dhash_addkey, IsProbed-with_key,
}

abbrev empty_table : DhashTable
empty_table = record { dhash_size = 389; keys = λ i. 0 }

abbrev table : DhashTable
table = (wg_dhash_addkey empty_table 12).1

table-IsProbed : IsProbed table
unfolding wg_dhash_addkey
table-IsProbed =
    IsProbed-with_key empty_table 12 (omega arith) (λ slot word. absurd (word refl)) refl

wg_dhash_haskey-wg_dhash_addkey_example :
    (((wg_dhash_addkey table 20).0 ≡ pos 0)
      × IsProbed (wg_dhash_addkey table 20).1
      × (wg_dhash_haskey (wg_dhash_addkey table 20).1 20 ≡ true)
      × ((other : ℕ)
          → other ≢ 0
          → other ≢ 20
          → wg_dhash_haskey (wg_dhash_addkey table 20).1 other ≡ wg_dhash_haskey table other))
    ⊎ ((wg_dhash_addkey table 20 ≡ (neg 1, table)) × (wg_dhash_haskey table 20 ≡ false))
wg_dhash_haskey-wg_dhash_addkey_example =
    wg_dhash_haskey-wg_dhash_addkey table 20 (omega arith) table-IsProbed

dhash_size_lem_example :
    ((200000000 ≤ 100663305) × (2 * 200000000 < dhash_size 200000000))
    ⊎ ((100663305 < 200000000)
        × (dhash_size 200000000 ≡ 201326611)
        × (dhash_size 200000000 < 2 * 200000000))
dhash_size_lem_example = dhash_size_lem 200000000 (omega arith)
