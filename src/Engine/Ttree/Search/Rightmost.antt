-- ===== src/Engine/Ttree/Search/Rightmost.antt =====
-- The rightmost node that bounds a key, in the T-tree of workloads/no_sql_db/wasm-src/dbindex.c.
use wasm_cloud_computing_ben.Prelude.{
  ℕ, zero, suc, ◌≤◌, ◌≡◌, ◌≢◌, ◌⊎◌, inl, inr, refl, ap, sym, ◌∙◌, Bool, true, false, ◌==◌,
  if◌then◌else◌, Option, none, some, ◌∷◌, arith, All, Bool-cases,
}
use wasm_cloud_computing_ben.Engine.Compare.{Comparison}
use wasm_cloud_computing_ben.Engine.Query.{is_less, is_greater}
use wasm_cloud_computing_ben.Engine.Ttree.{
  Index, Bounding, really_bounding_node, dead_end_left_not_bounding, dead_end_right_not_bounding,
}
use wasm_cloud_computing_ben.Engine.Ttree.Shape.{Tree, tip, fork, in_order, height, IsTree}
use wasm_cloud_computing_ben.Engine.Ttree.Search.{wg_search_ttree_rightmost}
use wasm_cloud_computing_ben.Engine.Ttree.Search.Last.{
  last_without, last_without-append, last_without-All, Pairwise, Pairwise-append, All-imp, tip_last,
}

-- The node of an answer, if it bounds the key.
abbrev pub bounding_node : Bounding × ℕ → Option ℕ
bounding_node (really_bounding_node, x) = some x
bounding_node (dead_end_left_not_bounding, x) = none
bounding_node (dead_end_right_not_bounding, x) = none

module _ (compare : ℕ → ℕ → Comparison) (key : ℕ) (i : Index) where
  -- The key is less than all values of a node, or greater than all.
  abbrev pub below : ℕ → Bool
  below x = is_less (compare key (i.nodes x).current_min)

  abbrev pub above : ℕ → Bool
  above x = is_greater (compare key (i.nodes x).current_max)

  -- Bounds that ascend, as the key sees them.
  abbrev pub Ascends : ℕ → ℕ → Type 0
  Ascends x y = (below x ≡ true → below y ≡ true) × (above y ≡ true → above x ≡ true)

  abbrev pub unless_above : Option ℕ → Option ℕ
  unless_above none = none
  unless_above (some x) = if above x then none else some x

  -- The search ends with the last node that the key is not below, if the key is not above it.
  abbrev pub Answers : Tree → ℕ → ℕ → Option ℕ → Type 0
  Answers t fuel o rb =
      (answer : Bounding × ℕ) × (wg_search_ttree_rightmost compare key fuel i o rb ≡ some answer)
      × (bounding_node answer ≡ unless_above (last_without below rb (in_order t)))

  tip_or_not : (p o : ℕ) (t : Tree) → IsTree i.nodes p o t → ((o ≡ 0) × (t ≡ tip)) ⊎ (o ≢ 0)
  unfolding IsTree
  tip_or_not p o tip tree = inl (tree, refl)
  tip_or_not p o (fork l x r) (e, x0, _, _, _, _, _) = inr (λ zero. x0 (sym e ∙ zero))

  -- Below the values of the node, the nodes on its right do not count.
  on_left :
      (l r : Tree) (x : ℕ) (rb : Option ℕ)
      → below x ≡ true
      → All (λ y. below y ≡ true) (in_order r)
      → last_without below rb (in_order (fork l x r)) ≡ last_without below rb (in_order l)
  unfolding in_order
  on_left l r x rb less behind =
      last_without-append below rb (in_order l) (x ∷ in_order r)
      ∙ ap
          (λ b.
            last_without below (if b then last_without below rb (in_order l) else some x)
              (in_order r))
          less
      ∙ last_without-All below (last_without below rb (in_order l)) (in_order r) behind

  on_right :
      (l r : Tree) (x : ℕ) (rb : Option ℕ)
      → below x ≡ false
      → last_without below rb (in_order (fork l x r)) ≡ last_without below (some x) (in_order r)
  unfolding in_order
  on_right l r x rb more =
      last_without-append below rb (in_order l) (x ∷ in_order r)
      ∙ ap
          (λ b.
            last_without below (if b then last_without below rb (in_order l) else some x)
              (in_order r))
          more

  ends_left :
      (fuel x : ℕ) (rb : Option ℕ)
      → below x ≡ true
      → (i.nodes x).left_child_offset ≡ 0
      → (answer : Bounding × ℕ) × (wg_search_ttree_rightmost compare key (suc fuel) i x rb
          ≡ some answer)
        × (bounding_node answer ≡ unless_above rb)
  unfolding wg_search_ttree_rightmost
  ends_left fuel x none less end =
      ((dead_end_left_not_bounding, x), rw (wg_search_ttree_rightmost, less, end) refl, refl)
  ends_left fuel x (some c) less end = elim (Bool-cases (above c)) [
    | inl high ↦ (
      (dead_end_left_not_bounding, x),
      rw (wg_search_ttree_rightmost, less, end, high) refl,
      rw high refl,
    )
    | inr low ↦ (
      (really_bounding_node, c),
      rw (wg_search_ttree_rightmost, less, end, low) refl,
      rw low refl,
    )
  ]

  ends_right :
      (fuel x : ℕ) (rb : Option ℕ)
      → below x ≡ false
      → (i.nodes x).right_child_offset ≡ 0
      → (answer : Bounding × ℕ) × (wg_search_ttree_rightmost compare key (suc fuel) i x rb
          ≡ some answer)
        × (bounding_node answer ≡ unless_above (some x))
  unfolding wg_search_ttree_rightmost
  ends_right fuel x rb more end = elim (Bool-cases (above x)) [
    | inl high ↦ (
      (dead_end_right_not_bounding, x),
      rw (wg_search_ttree_rightmost, more, end, high) refl,
      rw high refl,
    )
    | inr low ↦ (
      (really_bounding_node, x),
      rw (wg_search_ttree_rightmost, more, end, low) refl,
      rw low refl,
    )
  ]

  goes_left :
      (fuel x : ℕ) (rb : Option ℕ)
      → below x ≡ true
      → (i.nodes x).left_child_offset ≢ 0
      → wg_search_ttree_rightmost compare key (suc fuel) i x rb
        ≡ wg_search_ttree_rightmost compare key fuel i (i.nodes x).left_child_offset rb
  unfolding wg_search_ttree_rightmost
  goes_left fuel x rb less more =
      let there : ((i.nodes x).left_child_offset == 0) ≡ false = ground arith in
      rw (wg_search_ttree_rightmost, less, there) refl

  goes_right :
      (fuel x : ℕ) (rb : Option ℕ)
      → below x ≡ false
      → (i.nodes x).right_child_offset ≢ 0
      → wg_search_ttree_rightmost compare key (suc fuel) i x rb
        ≡ wg_search_ttree_rightmost compare key fuel i (i.nodes x).right_child_offset (some x)
  unfolding wg_search_ttree_rightmost
  goes_right fuel x rb less more =
      let there : ((i.nodes x).right_child_offset == 0) ≡ false = ground arith in
      rw (wg_search_ttree_rightmost, less, there) refl

  lower :
      (l r : Tree) (x fuel : ℕ)
      → height (fork l x r) ≤ suc fuel
      → (height l ≤ fuel) × (height r ≤ fuel)
  unfolding height
  lower l r x fuel enough = ground arith

  no_fuel : (l r : Tree) (x : ℕ) → height (fork l x r) ≤ 0 → ⊥
  unfolding height
  no_fuel l r x enough = omega arith

  split :
      (l r : Tree) (x : ℕ)
      → Pairwise Ascends (in_order (fork l x r))
      → Pairwise Ascends (in_order l) × All (Ascends x) (in_order r) × Pairwise Ascends (in_order r)
  unfolding in_order
  split l r x sorted =
      let (front, (x_r, back)) = Pairwise-append Ascends (in_order l) (x ∷ in_order r) sorted in
      (front, x_r, back)

  pub search_lem :
      (t : Tree) (fuel p o : ℕ) (rb : Option ℕ)
      → IsTree i.nodes p o t
      → o ≢ 0
      → height t ≤ fuel
      → Pairwise Ascends (in_order t)
      → Answers t fuel o rb
  unfolding IsTree
  search_lem tip fuel p o rb tree nonzero enough sorted = absurd (nonzero tree)
  search_lem (fork l x r) zero p o rb tree nonzero enough sorted = absurd (no_fuel l r x enough)
  search_lem (fork l x r) (suc fuel) p o rb (e, x0, pa, hl, hr, left, right) nonzero enough sorted =
      let (sorted_l, x_r, sorted_r) = split l r x sorted in
      let (low_l, low_r) = lower l r x fuel enough in
      rw e (elim (Bool-cases (below x)) [
        | inl less ↦
            let behind : All (λ y. below y ≡ true) (in_order r) =
              All-imp (Ascends x) (λ y. below y ≡ true) (in_order r) (λ y h. h.0 less) x_r in
            elim (tip_or_not x (i.nodes x).left_child_offset l left) [
              | inl (none_left, is_tip) ↦
                  let (answer, found, bound) = ends_left fuel x rb less none_left in
                  (
                    answer,
                    found,
                    bound
                        ∙ ap unless_above
                            (sym (on_left l r x rb less behind ∙ tip_last below rb l is_tip)),
                  )
              | inr some_left ↦
                  let (answer, found, bound) =
                    search_lem l fuel x (i.nodes x).left_child_offset rb left some_left low_l
                      sorted_l in
                  (
                    answer,
                    goes_left fuel x rb less some_left ∙ found,
                    bound ∙ ap unless_above (sym (on_left l r x rb less behind)),
                  )
            ]
        | inr more ↦ elim (tip_or_not x (i.nodes x).right_child_offset r right) [
          | inl (none_right, is_tip) ↦
              let (answer, found, bound) = ends_right fuel x rb more none_right in
              (
                answer,
                found,
                bound
                    ∙ ap unless_above
                        (sym (on_right l r x rb more ∙ tip_last below (some x) r is_tip)),
              )
          | inr some_right ↦
              let (answer, found, bound) =
                search_lem r fuel x (i.nodes x).right_child_offset (some x) right some_right low_r
                  sorted_r in
              (
                answer,
                goes_right fuel x rb more some_right ∙ found,
                bound ∙ ap unless_above (sym (on_right l r x rb more)),
              )
        ]
      ])
