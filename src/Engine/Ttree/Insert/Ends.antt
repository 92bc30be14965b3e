-- ===== src/Engine/Ttree/Insert/Ends.antt =====
-- What a node of the T-tree holds after a record was put at its first or its last place, `ttree_add_row` of
-- workloads/no_sql_db/wasm-src/dbindex.c.
use wasm_cloud_computing_ben.Prelude.{
  ℕ, ◌+◌, ◌-◌, ◌<◌, ◌≡◌, ap, ap₂, sym, ◌∙◌, false, ◌==◌, List, [], ◌∷◌, ◌++◌, arith,
}
use wasm_cloud_computing_ben.Engine.{store_word}
use wasm_cloud_computing_ben.Engine.Compare.{Comparison}
use wasm_cloud_computing_ben.Engine.Ttree.{Tnode}
use wasm_cloud_computing_ben.Engine.Ttree.Insert.{push_right}
use wasm_cloud_computing_ben.Engine.Ttree.Insert.Slots.{
  slots, slots-append, slots-ext, push_right_lem,
}
use wasm_cloud_computing_ben.Engine.Ttree.{
  Bounding, really_bounding_node, dead_end_left_not_bounding, dead_end_right_not_bounding,
}
use wasm_cloud_computing_ben.Engine.Ttree.Insert.{add_at_end, add_behind}
use wasm_cloud_computing_ben.Engine.Ttree.Insert.Sync.{inserted, records_of, IsNode}

appended :
    (n rec : ℕ) (a : ℕ → ℕ) → slots (n + 1) (store_word a n rec) 0 ≡ slots n a 0 ++ (rec ∷ [])
unfolding slots store_word
appended n rec a =
    let b = store_word a n rec in
    let front : slots n b 0 ≡ slots n a 0 = slots-ext n b a 0 0 (λ k h. ground arith) in
    let here : b n ≡ rec = ground arith in
    slots-append n 1 b 0 n (omega arith) ∙ ap₂ ◌++◌ front (ap (λ x. x ∷ []) here)

module _ (compare : ℕ → ℕ → Comparison) (field : ℕ → ℕ) where
  -- Where no node bounds a value, the new record comes first or last in the node at which the search ended.
  abbrev pub at_end : Bounding → ℕ → List ℕ → List ℕ
  at_end dead_end_left_not_bounding rec rs = rec ∷ rs
  at_end dead_end_right_not_bounding rec rs = rs ++ (rec ∷ [])
  at_end really_bounding_node rec rs = rs ++ (rec ∷ [])

  last_pushed :
      (n rec max : ℕ) (a : ℕ → ℕ)
      → 0 < n
      → max ≡ field (a (n - 1))
      → max ≡ field (store_word (push_right n a 0) 0 rec (n + 1 - 1))
  unfolding store_word
  last_pushed n rec max a some is_max =
      let z : n + 1 - 1 ≡ n = omega arith in rw z (ground (arith, push_right_lem n a 0 n))

  first_stays :
      (n rec min : ℕ) (a : ℕ → ℕ) → 0 < n → min ≡ field (a 0) → min ≡ field (store_word a n rec 0)
  unfolding store_word
  first_stays n rec min a some is_min = ground arith

  last_added :
      (n rec v : ℕ) (a : ℕ → ℕ) → field rec ≡ v → v ≡ field (store_word a n rec (n + 1 - 1))
  unfolding store_word
  last_added n rec v a key = let z : n + 1 - 1 ≡ n = omega arith in rw z (ground arith)

  -- A record that is put into a node with room at which the search ended without a bounding node: it comes
  -- before all others after a dead end on the left, and behind all others after one on the right, and the
  -- node's bounds are again the keys of its first and its last record.
  pub add_at_end-IsNode :
      (boundtype : Bounding) (node : Tnode) (rec v : ℕ)
      → IsNode compare field node
      → field rec ≡ v
      → let node' = add_at_end compare field boundtype node rec v in
        (records_of node' ≡ at_end boundtype rec (records_of node)) × IsNode compare field node'
  unfolding add_at_end slots store_word
  add_at_end-IsNode dead_end_left_not_bounding node rec v valid key =
      let n = node.number_of_elements in
      let a = node.array_of_values in
      let some = valid.some_record in
      let more : (n + 1 == 1) ≡ false = ground arith in
      let z : n - 0 ≡ n = omega arith in
      rw more (
        rw z at (inserted n 0 rec a (omega arith)),
        record {
          some_record = omega arith;
          min_is = sym key;
          max_is = last_pushed n rec node.current_max a some valid.max_is;
        },
      )
  add_at_end-IsNode dead_end_right_not_bounding node rec v valid key =
      let n = node.number_of_elements in
      let a = node.array_of_values in
      let some = valid.some_record in
      let more : (n + 1 == 1) ≡ false = ground arith in
      rw more (
        appended n rec a,
        record {
          some_record = omega arith;
          min_is = first_stays n rec node.current_min a some valid.min_is;
          max_is = last_added n rec v a key;
        },
      )
  add_at_end-IsNode really_bounding_node node rec v valid key =
      let n = node.number_of_elements in
      let a = node.array_of_values in
      let some = valid.some_record in
      let more : (n + 1 == 1) ≡ false = ground arith in
      rw more (
        appended n rec a,
        record {
          some_record = omega arith;
          min_is = first_stays n rec node.current_min a some valid.min_is;
          max_is = last_added n rec v a key;
        },
      )

  -- The record that a full node gave up comes last in the node with the greatest lower bound.
  add_behind-IsNode :
      (node : Tnode) (rec v : ℕ)
      → IsNode compare field node
      → field rec ≡ v
      → let node' = add_behind compare field node rec v in
        (records_of node' ≡ records_of node ++ (rec ∷ [])) × IsNode compare field node'
  unfolding add_behind
  add_behind-IsNode node rec v valid key =
      let n = node.number_of_elements in
      let a = node.array_of_values in
      (
        appended n rec a,
        record {
          some_record = omega arith;
          min_is = first_stays n rec node.current_min a valid.some_record valid.min_is;
          max_is = last_added n rec v a key;
        },
      )
