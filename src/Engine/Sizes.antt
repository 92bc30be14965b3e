-- ===== src/Engine/Sizes.antt =====
-- The words that carry a size and two mark bits.
use wasm_cloud_computing_ben.Prelude.{ℕ, ◌+◌, ◌*◌, ◌%◌, ◌≤◌, ◌≡◌, false, true, arith}
use wasm_cloud_computing_ben.Engine.{
  unmarked, isfreeobject, isnormalusedobject, isnormalusedobjectprevfree, isspecialusedobject,
  getfreeobjectsize, getusedobjectsize, makefreeobjectsize, makeusedobjectsizeprevused,
  makeusedobjectsizeprevfree, makespecialusedobjectsize, used_bytes,
}

-- A request of `nr` words takes at least its bytes and sixteen, a multiple of eight, and less than
-- eight bytes more than the greater of both.
pub used_bytes_bounds :
    (nr : ℕ)
    → (4 * nr ≤ used_bytes (4 * nr))
      × (16 ≤ used_bytes (4 * nr))
      × (used_bytes (4 * nr) % 8 ≡ 0)
      × (used_bytes (4 * nr) ≤ 4 * nr + 16)
unfolding used_bytes
used_bytes_bounds nr = ground arith

-- What is read back from the header of an allocated object, with either mark of its predecessor, is
-- the number of bytes that the allocation took.
getusedobjectsize-used_bytes :
    (nr : ℕ)
    → (getusedobjectsize (makeusedobjectsizeprevused (4 * nr)) ≡ used_bytes (4 * nr))
      × (getusedobjectsize (makeusedobjectsizeprevfree (4 * nr)) ≡ used_bytes (4 * nr))
unfolding getusedobjectsize makeusedobjectsizeprevused makeusedobjectsizeprevfree used_bytes
    unmarked
getusedobjectsize-used_bytes nr = ground arith

-- The two mark bits tell the four kinds of header apart: each maker is read as its own kind and as no
-- other, and the size of a free object is read back.
marks_distinct :
    (n : ℕ)
    → n % 4 ≡ 0
    → (isfreeobject (makefreeobjectsize n) ≡ true)
      × (isnormalusedobject (makefreeobjectsize n) ≡ false)
      × (isspecialusedobject (makefreeobjectsize n) ≡ false)
      × (isfreeobject (makeusedobjectsizeprevused n) ≡ false)
      × (isnormalusedobject (makeusedobjectsizeprevused n) ≡ true)
      × (isnormalusedobjectprevfree (makeusedobjectsizeprevused n) ≡ false)
      × (isfreeobject (makeusedobjectsizeprevfree n) ≡ false)
      × (isnormalusedobject (makeusedobjectsizeprevfree n) ≡ true)
      × (isnormalusedobjectprevfree (makeusedobjectsizeprevfree n) ≡ true)
      × (isfreeobject (makespecialusedobjectsize n) ≡ false)
      × (isnormalusedobject (makespecialusedobjectsize n) ≡ false)
      × (isspecialusedobject (makespecialusedobjectsize n) ≡ true)
      × (getfreeobjectsize (makefreeobjectsize n) ≡ n)
unfolding unmarked isfreeobject isnormalusedobject isnormalusedobjectprevfree isspecialusedobject
    getfreeobjectsize makefreeobjectsize makeusedobjectsizeprevused makeusedobjectsizeprevfree
    makespecialusedobjectsize
marks_distinct n h = ground arith

-- The header that an allocation stores.
pub used_header :
    (nr : ℕ)
    → (isfreeobject (4 * nr) ≡ false)
      × (isnormalusedobjectprevfree (4 * nr) ≡ false)
      × (getusedobjectsize (4 * nr) ≡ used_bytes (4 * nr))
      × (unmarked (4 * nr) ≡ 4 * nr)
unfolding isfreeobject isnormalusedobjectprevfree getusedobjectsize used_bytes unmarked
used_header nr = ground arith

pub special_not_free : (i : ℕ) → isspecialusedobject i ≡ true → isfreeobject i ≡ false
unfolding isspecialusedobject isfreeobject
special_not_free i h = ground arith

pub special_is_special :
    (i : ℕ) → i % 4 ≡ 0 → isspecialusedobject (makespecialusedobjectsize i) ≡ true
unfolding isspecialusedobject makespecialusedobjectsize unmarked
special_is_special i h = ground arith
