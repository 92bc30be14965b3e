-- ===== src/Engine/Buckets.antt =====
-- The buckets of free objects of variable length, of dballoc.c: `wg_freebuckets_index`,
-- `init_area_buckets`, and the steps that the functions for objects of variable length share.
-- A free object has its size in its first and last word, the next object of the list in its second word,
-- and the previous one, or the address of the bucket, in its third.
pub mod Index
use wasm_cloud_computing_ben.Prelude.{
  ℕ, zero, suc, ◌+◌, ◌-◌, ◌*◌, ◌%◌, ◌^◌, Bool, if◌then◌else◌, ltb, ◌==◌, ◌&&◌,
}
use wasm_cloud_computing_ben.Prelude.Int.{ℤ, pos, neg}
use wasm_cloud_computing_ben.Engine.{
  Area, State, dbfetch, dbstore, bucket, set_bucket, bucket_addr, dvbucket, dvsizebucket,
  makefreeobjectsize, isnormalusedobject, makeusedobjectsizeprevused, makespecialusedobjectsize,
  exactbuckets_nr, varbuckets_nr, cachebuckets_nr,
}

-- `size<cursize`, where a `cursize` from 2 ^ 31 on is negative.
unfoldable pub below_cursize : ℕ → ℕ → Bool
below_cursize size cursize = ltb cursize (2 ^ 31) && ltb size cursize

-- The loop of `wg_freebuckets_index`, with the number of rounds that are left.
unfoldable pub index_loop : ℕ → ℕ → ℕ → ℕ → ℤ
index_loop zero size cursize i = neg 1
index_loop (suc rounds) size cursize i =
    let rest = index_loop rounds size (cursize * 2 % 2 ^ 32) (i + 1) in
    if below_cursize size cursize then pos (exactbuckets_nr + i) else rest

unfoldable pub wg_freebuckets_index : ℕ → ℤ
wg_freebuckets_index size =
    if ltb size exactbuckets_nr
    then pos size
    else index_loop varbuckets_nr size (exactbuckets_nr * 2) 0

-- The loop of `init_area_buckets` from bucket `i` on, for `n` buckets.
unfoldable pub empty_buckets : ℕ → State → ℕ → State
empty_buckets zero s i = s
empty_buckets (suc n) s i = empty_buckets n (set_bucket s i 0) (i + 1)

unfoldable pub init_area_buckets : State → State
init_area_buckets s = empty_buckets (exactbuckets_nr + varbuckets_nr + cachebuckets_nr) s 0

-- The size with the free mark, at both ends of the object.
unfoldable pub mark_free : State → ℕ → ℕ → State
mark_free s object size =
    dbstore (dbstore s object (makefreeobjectsize size)) (object + size - 4)
      (makefreeobjectsize size)

-- `if (freelist!=0) dbstore(db,freelist+2*sizeof(gint),prev)`
unfoldable pub set_prev : State → ℕ → ℕ → State
set_prev s object prev = if object == 0 then s else dbstore s (object + 8) prev

-- The object is put before the first object of the bucket's list, which was read before.
unfoldable pub link_object : State → ℕ → ℕ → ℕ → State
link_object s i object freelist =
    let linked = dbstore (set_prev s freelist object) (object + 4) freelist in
    set_bucket (dbstore linked (object + 8) (bucket_addr s i)) i object

-- `if (isnormalusedobject(tmp)) dbstore(db,object,makeusedobjectsizeprevused(tmp))`
unfoldable pub mark_prevused : State → ℕ → State
mark_prevused s object =
    let tmp = dbfetch s object in
    if isnormalusedobject tmp then dbstore s object (makeusedobjectsizeprevused tmp) else s

-- The header of a designated victim.
unfoldable pub mark_victim : State → ℕ → ℕ → State
mark_victim s object size =
    dbstore (dbstore s object (makespecialusedobjectsize size)) (object + 4) 1

unfoldable pub set_victim : State → ℕ → ℕ → State
set_victim s object size = set_bucket (set_bucket s dvbucket object) dvsizebucket size

-- A free object leaves the list of its bucket, wherever it stands in it.
unfoldable pub unlink_object : State → ℕ → ℕ → State
unlink_object s i object =
    let next = dbfetch s (object + 4) in
    let prev = dbfetch s (object + 8) in
    if bucket s i == object
    then set_prev (set_bucket s i next) next prev
    else set_prev (dbstore s (prev + 4) next) next prev
