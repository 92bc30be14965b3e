-- ===== src/Engine/Compare/Ints.antt =====
-- The comparison of integers of workloads/no_sql_db/wasm-src/dbcompare.c.
use wasm_cloud_computing_ben.Prelude.{
  ℕ, zero, suc, ◌≡◌, refl, true, if◌then◌else◌, ◌==◌, arith, Bool-cases, inl, inr,
}
use wasm_cloud_computing_ben.Prelude.Int.{eqz, eqz_self}
use wasm_cloud_computing_ben.Engine.{State}
use wasm_cloud_computing_ben.Engine.Values.{wg_inttype, signed, wg_decode_int, wg_get_encoded_type}
use wasm_cloud_computing_ben.Engine.Compare.{
  wg_equal, Decoders, greater_int, compare_ints, compare_same, compare_typed, wg_compare,
  wg_compare_rec_depth, compare_encoded,
}

ints_compare :
    (d : Decoders) (s : State) (a b depth : ℕ)
    → wg_get_encoded_type true s a ≡ wg_inttype
    → wg_get_encoded_type true s b ≡ wg_inttype
    → wg_compare d depth s a b ≡ compare_ints s a b
unfolding wg_compare compare_typed compare_same
ints_compare d s a b zero ta tb = rw (ta, tb) refl
ints_compare d s a b (suc depth) ta tb = rw (ta, tb) refl

-- Two encoded integers, in a word or in an object, compare as the signed numbers that they decode to.
pub compare_encoded-wg_decode_int :
    (d : Decoders) (s : State) (a b : ℕ)
    → wg_get_encoded_type true s a ≡ wg_inttype
    → wg_get_encoded_type true s b ≡ wg_inttype
    → let x = signed (wg_decode_int true s a) in
      let y = signed (wg_decode_int true s b) in
      compare_encoded d s a b ≡ (if eqz x y then wg_equal else greater_int x y)
unfolding compare_encoded compare_ints
compare_encoded-wg_decode_int d s a b ta tb = elim (Bool-cases (a == b)) [
  | inl same ↦
      let e : b ≡ a = ground arith in rw (same, e, eqz_self (signed (wg_decode_int true s a))) refl
  | inr other ↦ rw (other, ints_compare d s a b wg_compare_rec_depth ta tb) refl
]
