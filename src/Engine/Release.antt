-- ===== src/Engine/Release.antt =====
-- `wg_free_object` of dballoc.c: the freed object is joined with its free neighbours and with the
-- designated victim.
pub mod Victim
use wasm_cloud_computing_ben.Prelude.{
  ℕ, ◌+◌, ◌-◌, Bool, if◌then◌else◌, ltb, ◌==◌, ◌&&◌, ◌||◌, not, Option, none, some,
}
use wasm_cloud_computing_ben.Prelude.Int.{ℤ, pos, negsuc, neg}
use wasm_cloud_computing_ben.Engine.{
  State, dbfetch, dbstore, bucket, set_bucket, bucket_addr, isfreeobject, isnormalusedobject,
  isnormalusedobjectprevfree, isspecialusedobject, getfreeobjectsize, getusedobjectsize,
  makeusedobjectsizeprevfree, min_varlenobj_size, dvbucket, dvsizebucket,
}
use wasm_cloud_computing_ben.Engine.Buckets.{
  wg_freebuckets_index, mark_free, set_prev, link_object, mark_prevused, mark_victim, set_victim,
}

-- A free object leaves the list of its bucket, wherever it stands in it; `none`: there is no such bucket.
unfoldable pub unlink_object : State → ℕ → ℕ → Option State
unlink_object s object size =
    let next = dbfetch s (object + 4) in
    let prev = dbfetch s (object + 8) in
    elim (wg_freebuckets_index size) [
      | negsuc n ↦ none
      | pos i ↦
          if bucket s i == object
          then some (set_prev (set_bucket s i next) next prev)
          else some (set_prev (dbstore s (prev + 4) next) next prev)
    ]

-- A header becomes one that follows a free object, if it is of an object in normal use.
unfoldable pub mark_prevfree : State → ℕ → State
mark_prevfree s object =
    let tmp = dbfetch s object in
    if isnormalusedobject tmp then dbstore s object (makeusedobjectsizeprevfree tmp) else s

-- The end of the function: the object goes to the list of its bucket.
unfoldable pub store_freed : State → ℕ → ℕ → Option (ℤ × State)
store_freed s object size = elim (wg_freebuckets_index size) [
  | negsuc n ↦ none
  | pos i ↦
      let freelist = bucket s i in
      let marked = mark_free (set_prev s freelist object) object size in
      let linked = dbstore (dbstore marked (object + 4) freelist) (object + 8) (bucket_addr s i) in
      some (pos 0, set_bucket linked i object)
]

-- A freed object that is larger than the victim becomes the victim, and the old one is freed.
unfoldable pub store_larger : State → ℕ → ℕ → Option (ℤ × State)
store_larger s object size =
    let dv = bucket s dvbucket in
    let dvsize = bucket s dvsizebucket in
    let victim = mark_victim (set_victim s object size) object size in
    let next_marked = mark_prevused victim (object + size) in
    if ltb dvsize size
    then if dv == 0
      then some (pos 0, next_marked)
      else store_freed (mark_prevfree next_marked (dv + dvsize)) dv dvsize
    else store_freed s object size

-- The victim behind the object is joined to it.
unfoldable pub join_next_victim : State → ℕ → ℕ → State
join_next_victim s object size =
    let joined = size + bucket s dvsizebucket in
    mark_victim (set_victim s object joined) object joined

-- The object behind: free, the victim, in use, or the end marker.
unfoldable pub join_next : State → ℕ → ℕ → Option (ℤ × State)
join_next s object size =
    let nextobject = object + size in
    let head = dbfetch s nextobject in
    if isfreeobject head
    then elim (unlink_object s nextobject (getfreeobjectsize head)) [
      | none ↦ none
      | some s' ↦ store_larger s' object (size + getfreeobjectsize head)
    ]
    else if isspecialusedobject head && nextobject == bucket s dvbucket
    then some (pos 0, join_next_victim s object size)
    else store_larger (mark_prevfree s nextobject) object size

-- The victim grows by the object behind it, and by a free one behind that.
unfoldable pub grow_victim : State → ℕ → ℕ → State
grow_victim s object size = set_bucket (mark_victim s object size) dvsizebucket size

unfoldable pub join_victim : State → ℕ → Option (ℤ × State)
join_victim s size =
    let object = bucket s dvbucket in
    let joined = size + bucket s dvsizebucket in
    let nextobject = object + joined in
    let head = dbfetch s nextobject in
    let longer = joined + getfreeobjectsize head in
    if isfreeobject head
    then elim (unlink_object s nextobject (getfreeobjectsize head)) [
      | none ↦ none
      | some s' ↦ some (pos 0, grow_victim (mark_prevused s' (object + longer)) object longer)
    ]
    else some (pos 0, grow_victim s object joined)

-- The free object before is joined with the object; -4 if its header is not that of a free object.
unfoldable pub join_prev : State → ℕ → ℕ → Option (ℤ × State)
join_prev s object size =
    let prevobjectsize = getfreeobjectsize (dbfetch s (object - 4)) in
    let prevobject = object - prevobjectsize in
    let head = dbfetch s prevobject in
    if not (isfreeobject head) || not (getfreeobjectsize head == prevobjectsize)
    then some (neg 4, s)
    else elim (unlink_object s prevobject prevobjectsize) [
      | none ↦ none
      | some s' ↦ join_next s' prevobject (size + prevobjectsize)
    ]

-- The result and the state; `none` where the code uses a bucket index out of the array. The first
-- argument is what `dbcheck` answers.
unfoldable pub wg_free_object : Bool → State → ℕ → Option (ℤ × State)
wg_free_object is_db s object =
    let objecthead = dbfetch s object in
    let size = getusedobjectsize objecthead in
    if not is_db
    then some (neg 1, s)
    else if isfreeobject objecthead
    then some (neg 2, s)
    else if ltb size min_varlenobj_size
    then some (neg 3, s)
    else if isnormalusedobjectprevfree objecthead
    then join_prev s object size
    else if bucket s dvbucket + bucket s dvsizebucket == object
    then join_victim s size
    else join_next s object size
