-- ===== src/Engine/Ttree/Insert/Sync.antt =====
-- What a node of the T-tree holds after a record was put into it, `ttree_add_row` of
-- workloads/no_sql_db/wasm-src/dbindex.c.
use wasm_cloud_computing_ben.Prelude.{
  ℕ, zero, suc, ◌+◌, ◌-◌, ◌≤◌, ◌<◌, ◌≡◌, ◌≢◌, ap, ap₂, ◌∙◌, true, false, if◌then◌else◌, ◌==◌, List,
  [], ◌∷◌, ◌++◌, arith, All, Bool-cases, inl, inr,
}
use wasm_cloud_computing_ben.Engine.{store_word}
use wasm_cloud_computing_ben.Engine.Compare.{Comparison, wg_equal, wg_greater, wg_lessthan, flip}
use wasm_cloud_computing_ben.Engine.Query.{is_less, is_greater}
use wasm_cloud_computing_ben.Engine.Ttree.{Tnode}
use wasm_cloud_computing_ben.Engine.Ttree.Insert.{push_right, slot_up, add_to_bounding}
use wasm_cloud_computing_ben.Engine.Ttree.Insert.Slots.{
  slots, slots-append, slots-ext, push_right_lem,
}

pub slots-All :
    (P : ℕ → Type 0) (n : ℕ) (a : ℕ → ℕ) (s : ℕ)
    → ((k : ℕ) → s ≤ k → k < s + n → P (a k))
    → All P (slots n a s)
unfolding slots
slots-All P zero a s each = tt
slots-All P (suc n) a s each = (
  each s (omega arith) (omega arith),
  slots-All P n a (s + 1) (λ k lo hi. each k (omega arith) (omega arith)),
)

-- The records of a node.
abbrev pub records_of : Tnode → List ℕ
records_of node = slots node.number_of_elements node.array_of_values 0

-- The array with a record at slot `i` and the later ones behind it.
pub inserted :
    (n i rec : ℕ) (a : ℕ → ℕ)
    → i ≤ n
    → slots (n + 1) (store_word (push_right (n - i) a i) i rec) 0
      ≡ slots i a 0 ++ (rec ∷ slots (n - i) a i)
unfolding slots store_word
inserted n i rec a inside =
    let b = store_word (push_right (n - i) a i) i rec in
    let m = n - i in
    let z : n + 1 ≡ i + suc m = omega arith in
    let front : slots i b 0 ≡ slots i a 0 =
      slots-ext i b a 0 0 (λ k h. ground (arith, push_right_lem (n - i) a i (0 + k))) in
    let here : b i ≡ rec = ground arith in
    let back : slots m b (i + 1) ≡ slots m a i =
      slots-ext m b a (i + 1) i (λ k h. ground (arith, push_right_lem (n - i) a i (i + 1 + k))) in
    ap (λ l. slots l b 0) z
    ∙ slots-append i (suc m) b 0 i (omega arith)
    ∙ ap₂ ◌++◌ front (ap₂ ◌∷◌ here back)

module _ (compare : ℕ → ℕ → Comparison) (field : ℕ → ℕ) where
  slot_up_lem :
      (n : ℕ) (a : ℕ → ℕ) (v s : ℕ)
      → let i = slot_up compare field n a v s in
        (s ≤ i)
        × (i ≤ s + n)
        × ((k : ℕ) → s ≤ k → k < i → is_less (compare (field (a k)) v) ≡ true)
        × (i < s + n → is_less (compare (field (a i)) v) ≡ false)
  unfolding slot_up
  slot_up_lem zero a v s =
      (omega arith, omega arith, (λ k lo hi. absurd (omega arith)), (λ h. absurd (omega arith)))
  slot_up_lem (suc n) a v s =
      let (lo, hi, before, at_slot) = slot_up_lem n a v (s + 1) in
      elim (Bool-cases (is_less (compare (field (a s)) v))) [
        | inr stop ↦
            rw (slot_up, stop)
              (omega arith, omega arith, (λ k lo hi. absurd (omega arith)), (λ h. stop))
        | inl less ↦
            rw (slot_up, less)
              (
                omega (arith, lo),
                omega (arith, hi),
                (λ k from to. elim (Bool-cases (k == s)) [
                  | inl same ↦ let e : k ≡ s = ground arith in rw e less
                  | inr other ↦ before k (ground arith) to
                ]),
                (λ h. at_slot (omega arith)),
              )
      ]

  -- The first record of a list has no smaller key, or there is none.
  abbrev pub StartsNotLess : ℕ → List ℕ → Type 0
  StartsNotLess v [] = Unit
  StartsNotLess v (r ∷ rs) = is_less (compare (field r) v) ≡ false

  -- The bounds are the keys of the first and of the last record.
  pub record IsNode (node : Tnode) : Type 0 where
    pub some_record : 0 < node.number_of_elements
    pub min_is : node.current_min ≡ field (node.array_of_values 0)
    pub max_is : node.current_max ≡ field (node.array_of_values (node.number_of_elements - 1))

  starts :
      (n : ℕ) (a : ℕ → ℕ) (v i : ℕ)
      → (0 < n → is_less (compare (field (a i)) v) ≡ false)
      → StartsNotLess v (slots n a i)
  unfolding slots
  starts zero a v i h = tt
  starts (suc n) a v i h = h (omega arith)

  new_min :
      (n i rec v min : ℕ) (a : ℕ → ℕ)
      → min ≡ field (a 0)
      → field rec ≡ v
      → (if i == 0 then v else min) ≡ field (store_word (push_right (n - i) a i) i rec 0)
  unfolding store_word
  new_min n i rec v min a is_min key = ground (arith, push_right_lem (n - i) a i 0)

  new_max :
      (n i rec max : ℕ) (a : ℕ → ℕ)
      → i ≤ n
      → i ≢ n
      → max ≡ field (a (n - 1))
      → max ≡ field (store_word (push_right (n - i) a i) i rec (n + 1 - 1))
  unfolding store_word
  new_max n i rec max a inside ne is_max =
      let z : n + 1 - 1 ≡ n = omega arith in rw z (ground (arith, push_right_lem (n - i) a i n))

  no_less :
      (x v : ℕ)
      → ((x y : ℕ) → compare y x ≡ flip (compare x y))
      → is_greater (compare v x) ≡ false
      → is_less (compare x v) ≡ true
      → ⊥
  no_less x v flips bounded less = go (compare x v) (rw (flips x v) at bounded) less
    where
      go : (c : Comparison) → is_greater (flip c) ≡ false → is_less c ≡ true → ⊥
      go wg_equal h k = absurd (ground arith)
      go wg_greater h k = absurd (ground arith)
      go wg_lessthan h k = absurd (ground arith)

  -- A record that is put into a bounding node with room: the records before it are those with smaller keys
  -- up to the first whose key is not smaller, all others follow it, and the node's bounds are again the keys
  -- of its first and its last record. The comparison answers the opposite way round.
  pub add_to_bounding-IsNode :
      (node : Tnode) (rec v : ℕ)
      → ((x y : ℕ) → compare y x ≡ flip (compare x y))
      → IsNode node
      → is_greater (compare v node.current_max) ≡ false
      → field rec ≡ v
      → let node' = add_to_bounding compare field node rec v in
        (xs : List ℕ) × (ys : List ℕ) × (records_of node ≡ xs ++ ys)
        × (records_of node' ≡ xs ++ (rec ∷ ys))
        × All (λ r. is_less (compare (field r) v) ≡ true) xs
        × StartsNotLess v ys
        × IsNode node'
  unfolding add_to_bounding
  add_to_bounding-IsNode node rec v flips valid bounded key =
      let a = node.array_of_values in
      let n = node.number_of_elements in
      let i = slot_up compare field n a v 0 in
      let (lo, hi, before, at_slot) = slot_up_lem n a v 0 in
      let z : n ≡ i + (n - i) = omega (arith, hi) in
      let not_last : i ≢ n = λ last. no_less node.current_max v flips bounded (
        rw (valid.max_is)
          (before (n - 1) (omega arith) (let some = valid.some_record in omega arith))) in
      (
        slots i a 0,
        slots (n - i) a i,
        ap (λ l. slots l a 0) z ∙ slots-append i (n - i) a 0 i (omega arith),
        inserted n i rec a (omega (arith, hi)),
        slots-All (λ r. is_less (compare (field r) v) ≡ true) i a 0
            (λ k from to. before k from (omega arith)),
        starts (n - i) a v i (λ h. at_slot (omega (arith, h))),
        record {
          some_record = omega arith;
          min_is = new_min n i rec v node.current_min a valid.min_is key;
          max_is = new_max n i rec node.current_max a (omega (arith, hi)) not_last valid.max_is;
        },
      )
