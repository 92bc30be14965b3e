-- ===== src/Engine/Hash/Member.antt =====
-- What is in the set after a word was added.
use wasm_cloud_computing_ben.Prelude.{
  ℕ, zero, suc, ◌+◌, ◌-◌, ◌%◌, ◌≤◌, ◌≡◌, ◌≢◌, ◌⊎◌, inl, inr, refl, sym, ap, ◌∙◌, true, false, ◌==◌,
  Bool-cases, some, arith,
}
use wasm_cloud_computing_ben.Prelude.Int.{pos, neg}
use wasm_cloud_computing_ben.Engine.{store_word}
use wasm_cloud_computing_ben.Engine.Hash.Load.{dhash_size_some}
use wasm_cloud_computing_ben.Engine.Hash.{
  DhashTable, dhash_probe, is_end, lookup_loop, dhash_lookup, rehash_gint, wg_dhash_init,
  wg_dhash_addkey, wg_dhash_haskey, dhash_size,
}

-- Every word of the table stands where the search for it ends.
abbrev pub IsProbed : DhashTable → Type 0
IsProbed tbl = (slot : ℕ) → tbl.keys slot ≢ 0 → dhash_lookup tbl (tbl.keys slot) ≡ slot

abbrev with_key : DhashTable → ℕ → ℕ → DhashTable
with_key tbl c key = record tbl { keys = store_word tbl.keys c key }

-- The search for the word ends where it was put.
lookup_loop_own :
    (rounds : ℕ) (tbl : DhashTable) (key c h1 h2 i b : ℕ)
    → tbl.keys c ≡ 0
    → lookup_loop rounds tbl key h1 h2 i b ≡ c
    → lookup_loop rounds (with_key tbl c key) key h1 h2 i b ≡ c
unfolding lookup_loop is_end store_word
lookup_loop_own zero tbl key c h1 h2 i b empty ends = ends
lookup_loop_own (suc rounds) tbl key c h1 h2 i b empty ends =
    ground
      (arith, lookup_loop_own rounds tbl key c h1 h2 (i + 1) (dhash_probe h1 h2 i tbl.dhash_size))

-- The search for another word of the table ends where it ended before.
lookup_loop_other :
    (rounds : ℕ) (tbl : DhashTable) (key c other h1 h2 i b j : ℕ)
    → tbl.keys c ≡ 0
    → other ≢ 0
    → tbl.keys j ≡ other
    → lookup_loop rounds tbl other h1 h2 i b ≡ j
    → lookup_loop rounds (with_key tbl c key) other h1 h2 i b ≡ j
unfolding lookup_loop is_end store_word
lookup_loop_other zero tbl key c other h1 h2 i b j empty nonzero word ends = ends
lookup_loop_other (suc rounds) tbl key c other h1 h2 i b j empty nonzero word ends = ground (
  arith,
  lookup_loop_other rounds tbl key c other h1 h2 (i + 1) (dhash_probe h1 h2 i tbl.dhash_size) j,
)

lookup_own :
    (tbl : DhashTable) (key : ℕ)
    → tbl.keys (dhash_lookup tbl key) ≡ 0
    → dhash_lookup (with_key tbl (dhash_lookup tbl key) key) key ≡ dhash_lookup tbl key
unfolding dhash_lookup is_end store_word
lookup_own tbl key empty =
    let h = rehash_gint key in
    let h1 = h % tbl.dhash_size in
    ground (
      arith,
      lookup_loop_own (tbl.dhash_size - 1) tbl key (dhash_lookup tbl key) h1
          (1 + h % (tbl.dhash_size - 1)) 1 h1,
    )

lookup_other :
    (tbl : DhashTable) (key c other j : ℕ)
    → tbl.keys c ≡ 0
    → other ≢ 0
    → tbl.keys j ≡ other
    → dhash_lookup tbl other ≡ j
    → dhash_lookup (with_key tbl c key) other ≡ j
unfolding dhash_lookup is_end store_word
lookup_other tbl key c other j empty nonzero word ends =
    let h = rehash_gint other in
    let h1 = h % tbl.dhash_size in
    ground (
      arith,
      lookup_loop_other (tbl.dhash_size - 1) tbl key c other h1 (1 + h % (tbl.dhash_size - 1)) 1 h1
          j,
    )

other_slot :
    (tbl : DhashTable) (c key slot : ℕ) → slot ≢ c → (with_key tbl c key).keys slot ≡ tbl.keys slot
unfolding store_word
other_slot tbl c key slot other = ground arith

own_slot : (tbl : DhashTable) (c key : ℕ) → (with_key tbl c key).keys c ≡ key
unfolding store_word
own_slot tbl c key = ground arith

pub IsProbed-with_key :
    (tbl : DhashTable) (key : ℕ)
    → key ≢ 0
    → IsProbed tbl
    → tbl.keys (dhash_lookup tbl key) ≡ 0
    → IsProbed (with_key tbl (dhash_lookup tbl key) key)
IsProbed-with_key tbl key nonzero probed empty slot word =
    let c = dhash_lookup tbl key in
    elim (Bool-cases (slot == c)) [
      | inl same ↦
          let at : slot ≡ c = ground arith in rw (at, own_slot tbl c key) (lookup_own tbl key empty)
      | inr differs ↦
          let apart : slot ≢ c = ground arith in
          let kept = other_slot tbl c key slot apart in
          let held : tbl.keys slot ≢ 0 = rw (sym kept) word in
          rw kept (lookup_other tbl key c (tbl.keys slot) slot empty held refl (probed slot held))
    ]

has_own :
    (tbl : DhashTable) (key : ℕ)
    → tbl.keys (dhash_lookup tbl key) ≡ 0
    → wg_dhash_haskey (with_key tbl (dhash_lookup tbl key) key) key ≡ true
unfolding wg_dhash_haskey
has_own tbl key empty =
    let c = dhash_lookup tbl key in
    let word : (with_key tbl c key).keys (dhash_lookup (with_key tbl c key) key) ≡ key =
      rw (lookup_own tbl key empty) (own_slot tbl c key) in
    ground arith

-- Another word is found just if it was found before.
has_other :
    (tbl : DhashTable) (key c other : ℕ)
    → IsProbed tbl
    → tbl.keys c ≡ 0
    → other ≢ 0
    → other ≢ key
    → wg_dhash_haskey (with_key tbl c key) other ≡ wg_dhash_haskey tbl other
unfolding wg_dhash_haskey
has_other tbl key c other probed empty nonzero differs =
    let j = dhash_lookup tbl other in
    let j' = dhash_lookup (with_key tbl c key) other in
    elim (Bool-cases (tbl.keys j == other)) [
      | inl held ↦
          let word : tbl.keys j ≡ other = ground arith in
          let same = lookup_other tbl key c other j empty nonzero word refl in
          let apart : j ≢ c = λ e. nonzero (sym word ∙ ap tbl.keys e ∙ empty) in
          rw (same, other_slot tbl c key j apart) refl
      | inr missing ↦ elim (Bool-cases ((with_key tbl c key).keys j' == other)) [
        | inr still ↦ rw (missing, still) refl
        | inl new ↦
            let word : (with_key tbl c key).keys j' ≡ other = ground arith in
            let apart : j' ≢ c =
              λ e. differs (sym word ∙ ap (with_key tbl c key).keys e ∙ own_slot tbl c key) in
            let old : tbl.keys j' ≡ other = sym (other_slot tbl c key j' apart) ∙ word in
            let found = probed j' (λ e. nonzero (sym old ∙ e)) in
            let ends : j ≡ j' = ap (dhash_lookup tbl) (sym old) ∙ found in
            let there : tbl.keys j ≡ other = ap tbl.keys ends ∙ old in absurd (ground arith)
      ]
    ]

-- Adding a word other than 0 to a table that is found in order: the word is then in the set, all others are
-- in it just if they were, and the table is in order again; or there is no slot for the word, which is not
-- in the set, and the table is as before.
pub wg_dhash_haskey-wg_dhash_addkey :
    (tbl : DhashTable) (key : ℕ)
    → key ≢ 0
    → IsProbed tbl
    → (((wg_dhash_addkey tbl key).0 ≡ pos 0)
        × IsProbed (wg_dhash_addkey tbl key).1
        × (wg_dhash_haskey (wg_dhash_addkey tbl key).1 key ≡ true)
        × ((other : ℕ)
            → other ≢ 0
            → other ≢ key
            → wg_dhash_haskey (wg_dhash_addkey tbl key).1 other ≡ wg_dhash_haskey tbl other))
      ⊎ ((wg_dhash_addkey tbl key ≡ (neg 1, tbl)) × (wg_dhash_haskey tbl key ≡ false))
unfolding wg_dhash_addkey wg_dhash_haskey
wg_dhash_haskey-wg_dhash_addkey tbl key nonzero probed =
    let c = dhash_lookup tbl key in
    elim (Bool-cases (tbl.keys c == 0)) [
      | inl free ↦
          let empty : tbl.keys c ≡ 0 = ground arith in
          rw free (
            inl (
              refl,
              IsProbed-with_key tbl key nonzero probed empty,
              has_own tbl key empty,
              λ other some_word differs. has_other tbl key c other probed empty some_word differs,
            ))
      | inr taken ↦ elim (Bool-cases (tbl.keys c == key)) [
        | inl held ↦ rw (taken, held) (inl (refl, probed, held, λ other some_word differs. refl))
        | inr full ↦ rw (taken, full) (inr (refl, refl))
      ]
    ]

-- A new table is in order and has no word but 0.
pub wg_dhash_init-IsProbed :
    (entries : ℕ)
    → entries ≤ 2147483645
    → (tbl : DhashTable) × (wg_dhash_init true true entries ≡ some tbl)
      × IsProbed tbl
      × ((key : ℕ) → key ≢ 0 → wg_dhash_haskey tbl key ≡ false)
unfolding wg_dhash_init wg_dhash_haskey
wg_dhash_init-IsProbed entries small =
    let some_size : (dhash_size entries == 0) ≡ false = dhash_size_some entries small in
    (
      record { dhash_size = dhash_size entries; keys = λ i. 0 },
      rw some_size refl,
      λ slot word. absurd (word refl),
      λ key nonzero. ground arith,
    )
