-- ===== src/Engine/Release/Victim.antt =====
-- Freeing the object that stands directly before the designated victim.
use wasm_cloud_computing_ben.Prelude.{
  ℕ, suc, ◌^◌, ◌+◌, ◌-◌, ◌*◌, ◌%◌, ◌≤◌, ◌<◌, ◌≡◌, refl, ◌==◌, ltb, true, false, some, ◌∙◌, ap,
  arith,
}
use wasm_cloud_computing_ben.Prelude.Int.{pos}
use wasm_cloud_computing_ben.Engine.{
  State, dbfetch, dbstore, store_word, bucket, bucket_addr, set_bucket, used_bytes,
  makespecialusedobjectsize, isspecialusedobject,
}
use wasm_cloud_computing_ben.Engine.Sizes.{
  used_header, used_bytes_bounds, special_not_free, special_is_special,
}
use wasm_cloud_computing_ben.Engine.Buckets.{mark_victim, set_victim}
use wasm_cloud_computing_ben.Engine.Gints.{returned, wg_alloc_gints}
use wasm_cloud_computing_ben.Engine.Gints.Victim.{
  IsBehind, shortened, AreEmpty, wg_alloc_gints-victim, shortened_words,
}
use wasm_cloud_computing_ben.Engine.Release.{wg_free_object, join_next, join_next_victim}

free_before_victim :
    (t : State) (object nr : ℕ)
    → dbfetch t object ≡ 4 * nr
    → bucket t 288 ≡ object + used_bytes (4 * nr)
    → 0 < bucket t 289
    → isspecialusedobject (dbfetch t (object + used_bytes (4 * nr))) ≡ true
    → wg_free_object true t object ≡ some (pos 0, join_next_victim t object (used_bytes (4 * nr)))
unfolding wg_free_object join_next
free_before_victim t object nr head dv rest special =
    let (in_use, alone, size, plain) = used_header nr in
    let (more, enough, aligned, less) = used_bytes_bounds nr in
    let not_free = special_not_free (dbfetch t (object + used_bytes (4 * nr))) special in
    let behind : (bucket t 288 + bucket t 289 == object) ≡ false = ground arith in
    let not_small : ltb (used_bytes (4 * nr)) 16 ≡ false = ground arith in
    let there : (object + used_bytes (4 * nr) == bucket t 288) ≡ true = ground arith in
    rw (head, in_use, size, not_small, alone, behind, not_free, special, there) refl

join_next_victim_words :
    (t : State) (object used : ℕ)
    → t.area.freebuckets + 1160 ≤ object
    → (bucket (join_next_victim t object used) 288 ≡ object)
      × (bucket (join_next_victim t object used) 289 ≡ used + bucket t 289)
      × (dbfetch (join_next_victim t object used) object
          ≡ makespecialusedobjectsize (used + bucket t 289))
unfolding join_next_victim mark_victim set_victim set_bucket dbstore dbfetch bucket bucket_addr
    store_word
join_next_victim_words t object used behind = ground arith

-- In an area whose lists are empty, an allocation and the freeing of the object give the designated
-- victim back: with the buckets below it, a size that is a multiple of four, and room for the object and
-- for a least object, `wg_alloc_gints` returns the victim's first part, `wg_free_object` answers 0, and
-- then the victim has its old place, size and header.
pub wg_free_object-wg_alloc_gints :
    (fuel : ℕ) (s : State) (nr : ℕ)
    → AreEmpty s
    → IsBehind s
    → bucket s 289 % 4 ≡ 0
    → 4 * nr < 2 ^ 31
    → used_bytes (4 * nr) + 16 ≤ bucket s 289
    → (s1 : State) × (wg_alloc_gints (suc fuel) s nr ≡ returned (bucket s 288) s1)
      × (s2 : State) × (wg_free_object true s1 (bucket s 288) ≡ some (pos 0, s2))
      × (bucket s2 288 ≡ bucket s 288)
      × (bucket s2 289 ≡ bucket s 289)
      × (dbfetch s2 (bucket s 288) ≡ makespecialusedobjectsize (bucket s 289))
unfolding shortened dbstore set_victim set_bucket mark_victim
wg_free_object-wg_alloc_gints fuel s nr empty behind aligned small fits =
    let used = used_bytes (4 * nr) in
    let s1 = shortened s used (4 * nr) in
    let (more, enough, eights, less) = used_bytes_bounds nr in
    let (in_use, alone, size, plain) = used_header nr in
    let (dv, dvsize, head, rest) = shortened_words s used (4 * nr) behind enough in
    let special =
      ap isspecialusedobject rest ∙ special_is_special (bucket s 289 - used) (omega arith) in
    let (dv2, dvsize2, head2) = join_next_victim_words s1 (bucket s 288) used behind in
    let whole : used + bucket s1 289 ≡ bucket s 289 = omega arith in
    (
      s1,
      wg_alloc_gints-victim fuel s nr empty (omega arith) small fits,
      join_next_victim s1 (bucket s 288) used,
      free_before_victim s1 (bucket s 288) nr (head ∙ plain) dv (omega arith) special,
      dv2,
      dvsize2 ∙ whole,
      head2 ∙ ap makespecialusedobjectsize whole,
    )
