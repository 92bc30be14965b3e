-- ===== src/Engine/Hash.antt =====
-- The set of words of workloads/no_sql_db/wasm-src/dbhash.c, a table with double hashing. `gint` and
-- `size_t` have 32 bits. The table is a function from slots to words; 0 is an empty slot.
pub mod Load
pub mod Member
use wasm_cloud_computing_ben.Prelude.{
  ℕ, zero, suc, ◌+◌, ◌-◌, ◌*◌, ◌/◌, ◌%◌, ◌^◌, Bool, true, false, if◌then◌else◌, ltb, leb, ◌==◌,
  ◌||◌, List, [], ◌∷◌, Option, none, some,
}
use wasm_cloud_computing_ben.Prelude.Int.{ℤ, pos, neg}
use wasm_cloud_computing_ben.Engine.{store_word}
use Prim.Native.Nat.{bit_xor}

-- config.h defines HAVE_64BIT_GINT, so the constants are those for 64 bits, which the cast to the unsigned
-- type of 32 bits makes smaller.
abbrev pub fnv_offset_basis : ℕ
fnv_offset_basis = 14695981039346656037 % 2 ^ 32

abbrev pub fnv_prime : ℕ
fnv_prime = 1099511628211 % 2 ^ 32

-- The loop of `rehash_gint` over `n` bytes of a word, from the lowest on.
unfoldable pub rehash_bytes : ℕ → ℕ → ℕ → ℕ
rehash_bytes zero val hash = hash
rehash_bytes (suc n) val hash =
    rehash_bytes n (val / 256) (bit_xor hash (val % 256) * fnv_prime % 2 ^ 32)

unfoldable pub rehash_gint : ℕ → ℕ
rehash_gint val = rehash_bytes 4 val fnv_offset_basis

-- The primes that the loop of `dhash_size` looks at, and the one behind them.
abbrev pub primes : List ℕ
primes =
    389 ∷ 769 ∷ 1543 ∷ 3079 ∷ 6151 ∷ 12289 ∷ 24593 ∷ 49157 ∷ 98317 ∷ 196613 ∷ 393241 ∷ 786433
    ∷ 1572869 ∷ 3145739 ∷ 6291469 ∷ 12582917 ∷ 25165843 ∷ 50331653 ∷ 100663319 ∷ []

abbrev pub last_prime : ℕ
last_prime = 201326611

unfoldable pub first_above : List ℕ → ℕ → ℕ
first_above [] wantsize = last_prime
first_above (p ∷ ps) wantsize = if ltb wantsize p then p else first_above ps wantsize

unfoldable pub dhash_size : ℕ → ℕ
dhash_size entries = if ltb 2147483645 entries then 0 else first_above primes (entries * 2 % 2 ^ 32)

pub record DhashTable : Type 0 where
  pub dhash_size : ℕ
  pub keys : ℕ → ℕ

unfoldable pub dhash_probe : ℕ → ℕ → ℕ → ℕ → ℕ
dhash_probe h1 h2 i sz = (h1 + i * h2 % 2 ^ 32) % 2 ^ 32 % sz

-- Whether a slot holds the key or is empty.
unfoldable pub is_end : DhashTable → ℕ → ℕ → Bool
is_end tbl key slot = tbl.keys slot == key || tbl.keys slot == 0

-- The loop of `dhash_lookup` from `i` on, for `rounds` rounds; `b` is the slot before.
unfoldable pub lookup_loop : ℕ → DhashTable → ℕ → ℕ → ℕ → ℕ → ℕ → ℕ
lookup_loop zero tbl key h1 h2 i b = b
lookup_loop (suc rounds) tbl key h1 h2 i b =
    let slot = dhash_probe h1 h2 i tbl.dhash_size in
    let rest = lookup_loop rounds tbl key h1 h2 (i + 1) slot in
    if is_end tbl key slot then slot else rest

-- The slot; the size of a table is not 0.
unfoldable pub dhash_lookup : DhashTable → ℕ → ℕ
dhash_lookup tbl key =
    let h = rehash_gint key in
    let h1 = h % tbl.dhash_size in
    let h2 = 1 + h % (tbl.dhash_size - 1) in
    let rest = lookup_loop (tbl.dhash_size - 1) tbl key h1 h2 1 h1 in
    if is_end tbl key h1 then h1 else rest

-- The Boolean arguments are whether the two allocations succeed.
unfoldable pub wg_dhash_init : Bool → Bool → ℕ → Option DhashTable
wg_dhash_init made_table made_keys entries =
    if made_table
    then if made_keys
      then if dhash_size entries == 0
        then none
        else some (record { dhash_size = dhash_size entries; keys = λ i. 0 })
      else none
    else none

unfoldable pub wg_dhash_addkey : DhashTable → ℕ → ℤ × DhashTable
wg_dhash_addkey tbl key =
    let b = dhash_lookup tbl key in
    if tbl.keys b == 0
    then (pos 0, record tbl { keys = store_word tbl.keys b key })
    else if tbl.keys b == key
    then (pos 0, tbl)
    else (neg 1, tbl)

unfoldable pub wg_dhash_haskey : DhashTable → ℕ → Bool
wg_dhash_haskey tbl key = tbl.keys (dhash_lookup tbl key) == key
