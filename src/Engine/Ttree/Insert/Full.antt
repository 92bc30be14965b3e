-- ===== src/Engine/Ttree/Insert/Full.antt =====
-- What a full node of the T-tree holds after a record was put into it, `ttree_add_row` of
-- workloads/no_sql_db/wasm-src/dbindex.c.
use wasm_cloud_computing_ben.Prelude.{
  ℕ, zero, suc, ◌+◌, ◌-◌, ◌≤◌, ◌<◌, ◌≡◌, ap, ap₂, ◌∙◌, true, false, if◌then◌else◌, ◌==◌, List, [],
  ◌∷◌, ◌++◌, arith, All, Bool-cases, inl, inr,
}
use wasm_cloud_computing_ben.Engine.{store_word}
use wasm_cloud_computing_ben.Engine.Compare.{Comparison}
use wasm_cloud_computing_ben.Engine.Query.{is_greater}
use wasm_cloud_computing_ben.Engine.Ttree.{Tnode}
use wasm_cloud_computing_ben.Engine.Ttree.Insert.{push_left, slot_down, add_to_full}
use wasm_cloud_computing_ben.Engine.Ttree.Insert.Slots.{
  slots, slots-append, slots-ext, push_left_lem,
}
use wasm_cloud_computing_ben.Engine.Ttree.Insert.Sync.{slots-All, records_of, IsNode}

-- The array of eight without the first record, and with another one at slot `i`.
replaced :
    (i m rec : ℕ) (a : ℕ → ℕ)
    → slots (i + suc m) (store_word (push_left i a 0) i rec) 0
      ≡ slots i a 1 ++ (rec ∷ slots m a (i + 1))
unfolding slots store_word
replaced i m rec a =
    let b = store_word (push_left i a 0) i rec in
    let front : slots i b 0 ≡ slots i a 1 = slots-ext i b a 0 1 (λ k h.
      let e : 0 + k + 1 ≡ 1 + k = omega arith in ground (arith, push_left_lem i a 0 (0 + k))) in
    let here : b i ≡ rec = ground arith in
    let back : slots m b (i + 1) ≡ slots m a (i + 1) =
      slots-ext m b a (i + 1) (i + 1) (λ k h. ground (arith, push_left_lem i a 0 (i + 1 + k))) in
    slots-append i (suc m) b 0 i (omega arith) ∙ ap₂ ◌++◌ front (ap₂ ◌∷◌ here back)

module _ (compare : ℕ → ℕ → Comparison) (field : ℕ → ℕ) where
  slot_down_lem :
      (k : ℕ) (a : ℕ → ℕ) (v : ℕ)
      → let i = slot_down compare field k a v in
        (i ≤ k)
        × ((j : ℕ) → i < j → j ≤ k → is_greater (compare (field (a j)) v) ≡ true)
        × (0 < i → is_greater (compare (field (a i)) v) ≡ false)
  unfolding slot_down
  slot_down_lem zero a v =
      (omega arith, (λ j lo hi. absurd (omega arith)), (λ h. absurd (omega arith)))
  slot_down_lem (suc k) a v =
      let (low, behind, at_slot) = slot_down_lem k a v in
      elim (Bool-cases (is_greater (compare (field (a (suc k))) v))) [
        | inr stop ↦
            rw (slot_down, stop) (omega arith, (λ j lo hi. absurd (omega arith)), (λ h. stop))
        | inl more ↦
            rw (slot_down, more)
              (
                omega (arith, low),
                (λ j lo hi. elim (Bool-cases (j == suc k)) [
                  | inl same ↦ let e : j ≡ suc k = ground arith in rw e more
                  | inr other ↦ behind j lo (ground arith)
                ]),
                at_slot,
              )
      ]

  -- The last record of a list has no greater key, or there is none.
  abbrev pub EndsNotGreater : ℕ → List ℕ → Type 0
  EndsNotGreater v [] = Unit
  EndsNotGreater v (r ∷ []) = is_greater (compare (field r) v) ≡ false
  EndsNotGreater v (r ∷ (q ∷ rs)) = EndsNotGreater v (q ∷ rs)

  ends :
      (m : ℕ) (a : ℕ → ℕ) (v s l : ℕ)
      → l ≡ s + m
      → (0 < m → is_greater (compare (field (a (l - 1))) v) ≡ false)
      → EndsNotGreater v (slots m a s)
  unfolding slots
  ends zero a v s l e h = tt
  ends (suc zero) a v s l e h = let z : s ≡ l - 1 = omega arith in rw z (h (omega arith))
  ends (suc (suc m)) a v s l e h = ends (suc m) a v (s + 1) l (omega arith) (λ p. h (omega arith))

  new_min :
      (i rec v : ℕ) (a : ℕ → ℕ)
      → field rec ≡ v
      → let values = store_word (push_left i a 0) i rec in
        (if i == 0 then v else field (values 0)) ≡ field (values 0)
  unfolding store_word
  new_min i rec v a key = ground arith

  new_max :
      (i rec v max : ℕ) (a : ℕ → ℕ)
      → i ≤ 7
      → field rec ≡ v
      → max ≡ field (a 7)
      → (if i == 0 then max else if i == 7 then v else max)
        ≡ field (store_word (push_left i a 0) i rec 7)
  unfolding store_word
  new_max i rec v max a low key is_max = ground (arith, push_left_lem i a 0 7)

  -- A record that is put into a full bounding node: the node gives up its first record, the new one stands
  -- behind the others up to the last whose key is not greater, those with greater keys follow it, and the
  -- node's bounds are again the keys of its first and its last record.
  pub add_to_full-IsNode :
      (node : Tnode) (rec v : ℕ)
      → IsNode compare field node
      → node.number_of_elements ≡ 8
      → field rec ≡ v
      → let node' = add_to_full compare field node rec v in
        (xs : List ℕ) × (ys : List ℕ) × (records_of node ≡ node.array_of_values 0 ∷ (xs ++ ys))
        × (records_of node' ≡ xs ++ (rec ∷ ys))
        × EndsNotGreater v xs
        × All (λ r. is_greater (compare (field r) v) ≡ true) ys
        × IsNode compare field node'
  unfolding add_to_full slots
  add_to_full-IsNode node rec v valid full key =
      let a = node.array_of_values in
      let i = slot_down compare field 7 a v in
      let (low, behind, at_slot) = slot_down_lem 7 a v in
      let all_seven : 7 ≡ i + (7 - i) = omega (arith, low) in
      let eight : 8 ≡ i + suc (7 - i) = omega (arith, low) in
      (
        slots i a 1,
        slots (7 - i) a (i + 1),
        rw full (
            ap (λ l. a 0 ∷ l)
              (ap (λ l. slots l a 1) all_seven ∙ slots-append i (7 - i) a 1 (i + 1) (omega arith))),
        rw full (
            ap (λ l. slots l (store_word (push_left i a 0) i rec) 0) eight
            ∙ replaced i (7 - i) rec a),
        ends i a v 1 (i + 1) (omega arith)
            (λ h. let z : i + 1 - 1 ≡ i = omega arith in rw z (at_slot h)),
        slots-All (λ r. is_greater (compare (field r) v) ≡ true) (7 - i) a (i + 1)
            (λ j lo hi. behind j (omega (arith)) (omega (arith, low))),
        record {
          some_record = rw full (omega arith);
          min_is = new_min i rec v a key;
          max_is = rw full (new_max i rec v node.current_max a low key (rw full at valid.max_is));
        },
      )
