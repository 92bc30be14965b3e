-- ===== src/Engine.antt =====
-- The allocator of the database engine, workloads/no_sql_db/wasm-src/dballoc.c and dballoc.h: the state
-- that its functions share, and the macros for words, sizes and their two mark bits.
-- A `gint` has four bytes. The memory segment is a function from byte offsets to words, read and
-- written at multiples of four only; offsets in the segment are below 2 ^ 31.
pub mod Sizes
pub mod Chunks
pub mod Fixlen
pub mod Buckets
pub mod Varlen
pub mod Gints
pub mod Release
pub mod Dates
pub mod Values
pub mod Records
pub mod Locks
pub mod Hash
pub mod Compare
pub mod Query
pub mod Ttree
use wasm_cloud_computing_ben.Prelude.{ℕ, ◌+◌, ◌-◌, ◌*◌, ◌%◌, Bool, if◌then◌else◌, ltb, leb, ◌==◌}

abbrev pub subarea_array_size : ℕ
subarea_array_size = 64

abbrev pub minimal_subarea_size : ℕ
minimal_subarea_size = 8192

abbrev pub subarea_alignment_bytes : ℕ
subarea_alignment_bytes = 8

abbrev pub exactbuckets_nr : ℕ
exactbuckets_nr = 256

abbrev pub varbuckets_nr : ℕ
varbuckets_nr = 32

abbrev pub cachebuckets_nr : ℕ
cachebuckets_nr = 2

abbrev pub dvbucket : ℕ
dvbucket = 288

abbrev pub dvsizebucket : ℕ
dvsizebucket = 289

abbrev pub min_varlenobj_size : ℕ
min_varlenobj_size = 16

pub record Subarea : Type 0 where
  pub size : ℕ
  pub offset : ℕ
  pub alignedsize : ℕ
  pub alignedoffset : ℕ

-- `freebuckets` is the offset of the array of that name: the buckets are words of the segment.
pub record Area : Type 0 where
  pub objlength : ℕ
  pub freelist : ℕ
  pub last_subarea_index : ℕ
  pub subarea_array : ℕ → Subarea
  pub freebuckets : ℕ

pub record Segment : Type 0 where
  pub memory : ℕ → ℕ
  pub free : ℕ
  pub size : ℕ

-- The segment and the header of the area that a function works on.
pub record State : Type 0 where
  pub segment : Segment
  pub area : Area

unfoldable pub dbfetch : State → ℕ → ℕ
dbfetch s offset = s.segment.memory offset

unfoldable pub store_word : (ℕ → ℕ) → ℕ → ℕ → ℕ → ℕ
store_word memory offset value a = if a == offset then value else memory a

unfoldable pub dbstore : State → ℕ → ℕ → State
dbstore s offset value = record s {
  segment = record s.segment { memory = store_word s.segment.memory offset value };
}

-- `dbaddr(db, &freebuckets[i])`
unfoldable pub bucket_addr : State → ℕ → ℕ
bucket_addr s i = s.area.freebuckets + 4 * i

-- `freebuckets[i]`
unfoldable pub bucket : State → ℕ → ℕ
bucket s i = dbfetch s (bucket_addr s i)

-- `freebuckets[i] = value`
unfoldable pub set_bucket : State → ℕ → ℕ → State
set_bucket s i value = dbstore s (bucket_addr s i) value

-- `(i) & ~3`
unfoldable pub unmarked : ℕ → ℕ
unmarked i = i - i % 4

unfoldable pub isfreeobject : ℕ → Bool
isfreeobject i = i % 4 == 1

unfoldable pub isnormalusedobject : ℕ → Bool
isnormalusedobject i = i % 2 == 0

unfoldable pub isnormalusedobjectprevfree : ℕ → Bool
isnormalusedobjectprevfree i = i % 4 == 2

unfoldable pub isspecialusedobject : ℕ → Bool
isspecialusedobject i = i % 4 == 3

unfoldable pub getfreeobjectsize : ℕ → ℕ
getfreeobjectsize i = unmarked i

unfoldable pub getusedobjectsize : ℕ → ℕ
getusedobjectsize i =
    if leb (unmarked i) min_varlenobj_size
    then min_varlenobj_size
    else if unmarked i % 8 == 0
    then unmarked i
    else unmarked i + 4

unfoldable pub makefreeobjectsize : ℕ → ℕ
makefreeobjectsize i = unmarked i + 1

unfoldable pub makeusedobjectsizeprevused : ℕ → ℕ
makeusedobjectsizeprevused i = unmarked i

unfoldable pub makeusedobjectsizeprevfree : ℕ → ℕ
makeusedobjectsizeprevfree i = unmarked i + 2

unfoldable pub makespecialusedobjectsize : ℕ → ℕ
makespecialusedobjectsize i = unmarked i + 3

-- The bytes that `wg_alloc_gints` uses for `nr` words: at least the minimum, and a multiple of eight.
unfoldable pub used_bytes : ℕ → ℕ
used_bytes wantedbytes =
    if leb wantedbytes min_varlenobj_size
    then min_varlenobj_size
    else if wantedbytes % 8 == 0
    then wantedbytes
    else wantedbytes + 4
