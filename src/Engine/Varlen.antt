-- ===== src/Engine/Varlen.antt =====
-- Objects of variable length, of dballoc.c: `wg_alloc_gints`, `split_free`, `extend_varlen_area` and
-- `init_subarea_freespace`. The designated victim is a free object that stands in no list; two buckets
-- hold its offset and size.
use wasm_cloud_computing_ben.Prelude.{
  ℕ, zero, suc, ◌+◌, ◌-◌, ◌*◌, ◌/◌, ◌%◌, ◌^◌, if◌then◌else◌, ltb, leb, ◌==◌, ◌&&◌, ◌||◌, not,
  Option, none, some,
}
use wasm_cloud_computing_ben.Prelude.Int.{ℤ, pos, negsuc, neg}
use wasm_cloud_computing_ben.Engine.{
  State, dbfetch, dbstore, bucket, set_bucket, bucket_addr, isfreeobject, isnormalusedobject,
  getfreeobjectsize, getusedobjectsize, makeusedobjectsizeprevused, makeusedobjectsizeprevfree,
  makespecialusedobjectsize, min_varlenobj_size, dvbucket, dvsizebucket, minimal_subarea_size,
  subarea_array_size, subarea_alignment_bytes,
}
use wasm_cloud_computing_ben.Engine.Chunks.{init_db_subarea}
use wasm_cloud_computing_ben.Engine.Buckets.{
  wg_freebuckets_index, mark_free, set_prev, link_object, mark_prevused, mark_victim, set_victim,
}

-- What the first object of bucket `i` leaves of itself, when `nr` bytes of it are taken, becomes the
-- first object of its own bucket. The callers see to it that the object is longer than `nr`.
unfoldable pub split_free : State → ℕ → ℕ → ℤ × State
split_free s nr i =
    let object = bucket s i in
    let oldsize = dbfetch s object in
    let oldnextptr = dbfetch s (object + 4) in
    let cut = dbstore s object (makeusedobjectsizeprevused nr) in
    let out = set_bucket (set_prev cut oldnextptr (bucket_addr s i)) i oldnextptr in
    let splitsize = getfreeobjectsize oldsize - nr in
    let splitobject = object + nr in
    let marked = mark_free out splitobject splitsize in
    if not (isfreeobject oldsize) then (neg 1, s) else elim (wg_freebuckets_index splitsize) [
      | pos k ↦ (pos 0, link_object marked k splitobject (bucket marked k))
      | negsuc k ↦ (negsuc k, marked)
    ]

-- An object in use that neither end of the free space of a subarea may pass.
unfoldable pub store_marker : State → ℕ → State
store_marker s object =
    let head = dbstore s object (makespecialusedobjectsize min_varlenobj_size) in
    let pointers = dbstore (dbstore head (object + 4) 0) (object + 8) 0 in
    dbstore pointers (object + min_varlenobj_size - 4) min_varlenobj_size

-- The designated victim goes to a list; `none`: its size has no bucket, and the code writes outside of
-- the array.
unfoldable pub store_victim : State → Option State
store_victim s =
    let dv = bucket s dvbucket in
    let dvsize = bucket s dvsizebucket in
    let marked = mark_free s dv dvsize in
    let nextobj = dv + dvsize in
    let nextobjhead = dbfetch marked nextobj in
    let next_marked =
      if isnormalusedobject nextobjhead
      then dbstore marked nextobj (makeusedobjectsizeprevfree (getusedobjectsize nextobjhead))
      else marked in
    if not (dv == 0) && leb min_varlenobj_size dvsize
    then elim (wg_freebuckets_index dvsize) [
      | pos k ↦ some (link_object next_marked k dv (bucket marked k))
      | negsuc k ↦ none
    ]
    else some s

-- The two markers, and the victim between them.
unfoldable pub store_freespace : State → ℕ → ℕ → State
store_freespace s offset size =
    let marked = store_marker (store_marker s offset) (offset + size - min_varlenobj_size) in
    let freeoffset = offset + min_varlenobj_size in
    let freesize = size - 2 * min_varlenobj_size in
    set_victim (mark_victim marked freeoffset freesize) freeoffset freesize

unfoldable pub init_subarea_freespace : State → ℕ → Option State
init_subarea_freespace s arrayindex =
    let subarea = s.area.subarea_array arrayindex in
    elim (if ltb 0 arrayindex then store_victim s else some s) [
      | none ↦ none
      | some s' ↦ some (store_freespace s' subarea.alignedoffset subarea.alignedsize)
    ]

-- The `for` loop of `extend_varlen_area`, on fuel: `some 0` stands for a number that became negative. A
-- number that is doubled 32 times without that is 0 from then on: `none` is a loop that does not end.
unfoldable pub grow : ℕ → ℕ → ℕ → Option ℕ
grow zero size minsize = none
grow (suc fuel) size minsize =
    let newsize = size * 2 % 2 ^ 32 in
    let larger = grow fuel newsize minsize in
    if leb (2 ^ 31) newsize then some 0 else if ltb newsize minsize then larger else some newsize

-- The `while` loop of `extend_varlen_area`, on fuel.
unfoldable pub try_from : ℕ → State → ℕ → ℕ → ℕ → ℕ × State
try_from zero s index minsize newsize = (0, s)
try_from (suc fuel) s index minsize newsize =
    let (status, s') = init_db_subarea s index newsize in
    let smaller = try_from fuel s' index minsize (newsize / 2) in
    if leb minsize newsize
    then elim status [ pos n ↦ if n == 0 then (newsize, s') else smaller | _ ↦ smaller ]
    else (0, s)

unfoldable pub min_subarea : ℕ → ℕ
min_subarea minbytes =
    let minsize = minbytes + subarea_alignment_bytes + 2 * min_varlenobj_size in
    if ltb minsize minimal_subarea_size then minimal_subarea_size else minsize

-- The size that is made, or 0 for a failure; a bucket index out of the array; a loop that does not end.
pub data Extended : Type 0 where
  made : ℕ → State → Extended
  no_bucket unending : Extended

-- From the size that the `for` loop ends with.
unfoldable pub extend_by : State → ℕ → ℕ → ℕ → Extended
extend_by s index minsize newsize =
    let (size, s') = try_from 32 s index minsize newsize in
    if size == 0
    then made 0 s'
    else elim (init_subarea_freespace s' index) [ none ↦ no_bucket | some t ↦ made size t ]

-- A `minsize` from 2 ^ 31 on is a negative `gint`.
unfoldable pub extend_varlen_area : State → ℕ → Extended
extend_varlen_area s minbytes =
    let index = s.area.last_subarea_index + 1 in
    let minsize = min_subarea minbytes in
    if leb subarea_array_size index
    then made 0 s
    else if leb (2 ^ 31) minsize
    then made 0 s
    else elim (grow 32 (s.area.subarea_array s.area.last_subarea_index).size minsize) [
      | none ↦ unending
      | some newsize ↦ extend_by s index minsize newsize
    ]

-- The object of bucket `i` is taken whole.
unfoldable pub take_exact : State → ℕ → ℕ → ℕ → ℕ × State
take_exact s i usedbytes wantedbytes =
    let res = bucket s i in
    let nextel = dbfetch s (res + 4) in
    let out = set_prev (set_bucket s i nextel) nextel (bucket_addr s i) in
    let taken = dbstore out res (makeusedobjectsizeprevused wantedbytes) in
    (res, mark_prevused taken (res + usedbytes))

-- The object of bucket `i` is split; 0 if that fails.
unfoldable pub take_split : State → ℕ → ℕ → ℕ → ℕ × State
take_split s i usedbytes wantedbytes =
    let res = bucket s i in
    let (tmp, s') = split_free s usedbytes i in
    elim tmp [
      | pos n ↦ (res, dbstore s' res (makeusedobjectsizeprevused wantedbytes))
      | negsuc n ↦ (0, s')
    ]

-- The first bucket, from `i` on and for `rounds` rounds, whose first object can be split.
unfoldable pub first_to_split : ℕ → State → ℕ → ℕ → Option ℕ
first_to_split zero s usedbytes i = none
first_to_split (suc rounds) s usedbytes i =
    let rest = first_to_split rounds s usedbytes (i + 1) in
    let size = getfreeobjectsize (dbfetch s (bucket s i)) in
    if not (bucket s i == 0) && leb (usedbytes + min_varlenobj_size) size then some i else rest

-- The first bucket, from `i` on and for `rounds` rounds, whose first object fits or can be split.
unfoldable pub first_that_fits : ℕ → State → ℕ → ℕ → Option ℕ
first_that_fits zero s usedbytes i = none
first_that_fits (suc rounds) s usedbytes i =
    let rest = first_that_fits rounds s usedbytes (i + 1) in
    let size = getfreeobjectsize (dbfetch s (bucket s i)) in
    if not (bucket s i == 0) && (size == usedbytes || leb (usedbytes + min_varlenobj_size) size)
    then some i
    else rest

-- The victim gives its first part, or all of itself; `none` if it is too short.
unfoldable pub take_victim : State → ℕ → ℕ → Option (ℕ × State)
take_victim s usedbytes wantedbytes =
    let size = bucket s dvsizebucket in
    let res = bucket s dvbucket in
    let rest = res + usedbytes in
    let shorter = set_victim (mark_victim s rest (size - usedbytes)) rest (size - usedbytes) in
    let head = makeusedobjectsizeprevused wantedbytes in
    if not (leb usedbytes size && not (res == 0))
    then none
    else if usedbytes == size
    then some (res, dbstore (set_victim s 0 0) res head)
    else if leb (usedbytes + min_varlenobj_size) size
    then some (res, dbstore shorter res head)
    else none
