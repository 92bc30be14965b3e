-- ===== src/Engine/Ttree/Search/Found.antt =====
-- What the search for the rightmost node finds, in the T-tree of workloads/no_sql_db/wasm-src/dbindex.c.
use wasm_cloud_computing_ben.Prelude.{
  ℕ, ◌≤◌, ◌≡◌, ◌≢◌, ◌⊎◌, inl, inr, refl, ap, ◌∙◌, true, false, if◌then◌else◌, Option, none, some,
  List, [], ◌∷◌, ◌++◌, All, Bool-cases,
}
use wasm_cloud_computing_ben.Engine.Compare.{Comparison}
use wasm_cloud_computing_ben.Engine.Ttree.{Index, Bounding}
use wasm_cloud_computing_ben.Engine.Ttree.Shape.{Tree, in_order, height, IsTree}
use wasm_cloud_computing_ben.Engine.Ttree.Search.{wg_search_ttree_rightmost}
use wasm_cloud_computing_ben.Engine.Ttree.Search.Rightmost.{
  bounding_node, below, above, Ascends, unless_above, search_lem,
}
use wasm_cloud_computing_ben.Engine.Ttree.Search.Last.{last_without, Pairwise, All-imp}

module _ (compare : ℕ → ℕ → Comparison) (key : ℕ) (i : Index) where
  -- The node is the last one of the list that bounds the key; or none of the list does.
  abbrev pub IsLastBounding : Option ℕ → List ℕ → Type 0
  IsLastBounding none xs =
      All (λ y. (below compare key i y ≡ true) ⊎ (above compare key i y ≡ true)) xs
  IsLastBounding (some x) xs =
      (ys : List ℕ) × (zs : List ℕ) × (xs ≡ ys ++ (x ∷ zs))
      × (below compare key i x ≡ false)
      × (above compare key i x ≡ false)
      × All (λ y. below compare key i y ≡ true) zs

  above-All :
      (x : ℕ) (ys zs : List ℕ)
      → Pairwise (Ascends compare key i) (ys ++ (x ∷ zs))
      → above compare key i x ≡ true
      → All (λ y. below compare key i y ≡ true) zs
      → All (λ y. (below compare key i y ≡ true) ⊎ (above compare key i y ≡ true)) (ys ++ (x ∷ zs))
  above-All x [] zs sorted high behind =
      (inr high, All-imp (λ y. below compare key i y ≡ true) _ zs (λ y h. inl h) behind)
  above-All x (y ∷ ys) zs (first, sorted) high behind =
      (inr ((among ys first).1 high), above-All x ys zs sorted high behind)
    where
      among :
          (ws : List ℕ)
          → All ((Ascends compare key i) y) (ws ++ (x ∷ zs))
          → (Ascends compare key i) y x
      among [] (h, _) = h
      among (w ∷ ws) (_, all) = among ws all

  last_cases :
      (d : Option ℕ) (xs : List ℕ)
      → ((last_without (below compare key i) d xs ≡ d) × All (λ y. below compare key i y ≡ true) xs)
        ⊎ ((x : ℕ) × (ys : List ℕ) × (zs : List ℕ) × (xs ≡ ys ++ (x ∷ zs))
            × (below compare key i x ≡ false)
            × All (λ y. below compare key i y ≡ true) zs
            × (last_without (below compare key i) d xs ≡ some x))
  last_cases d [] = inl (refl, tt)
  last_cases d (x ∷ xs) = elim (last_cases (if below compare key i x then d else some x) xs) [
    | inr (y, ys, zs, e, more, behind, found) ↦
        inr (y, x ∷ ys, zs, ap (λ l. x ∷ l) e, more, behind, found)
    | inl (same, behind) ↦ elim (Bool-cases (below compare key i x)) [
      | inl less ↦ inl (same ∙ ap (λ b. if b then d else some x) less, (less, behind))
      | inr more ↦
          inr (x, [], xs, refl, more, behind, same ∙ ap (λ b. if b then d else some x) more)
    ]
  ]

  last_bounding :
      (xs : List ℕ)
      → Pairwise (Ascends compare key i) xs
      → IsLastBounding
          ((unless_above compare key i) (last_without (below compare key i) none xs))
          xs
  last_bounding xs sorted = elim (last_cases none xs) [
    | inl (same, behind) ↦
        rw same (All-imp (λ y. below compare key i y ≡ true) _ xs (λ y h. inl h) behind)
    | inr (x, ys, zs, e, more, behind, found) ↦ elim (Bool-cases (above compare key i x)) [
      | inl high ↦ rw (found, high, e) (above-All x ys zs (rw (← e) sorted) high behind)
      | inr low ↦ rw (found, low) (ys, zs, e, more, low, behind)
    ]
  ]

  -- In a T-tree whose bounds ascend from left to right as the key compares with them, and with fuel for its
  -- height, the search from the root ends. If it answers a bounding node, this is the last node from left to
  -- right whose bounds contain the key; if it ends at another node, no node of the tree bounds the key.
  pub wg_search_ttree_rightmost_lem :
      (t : Tree) (fuel p o : ℕ)
      → IsTree i.nodes p o t
      → o ≢ 0
      → height t ≤ fuel
      → Pairwise (Ascends compare key i) (in_order t)
      → (answer : Bounding × ℕ) × (wg_search_ttree_rightmost compare key fuel i o none
          ≡ some answer)
        × IsLastBounding (bounding_node answer) (in_order t)
  wg_search_ttree_rightmost_lem t fuel p o tree nonzero enough sorted =
      let (answer, found, bound) =
        (search_lem compare key i) t fuel p o none tree nonzero enough sorted in
      (answer, found, rw bound (last_bounding (in_order t) sorted))
