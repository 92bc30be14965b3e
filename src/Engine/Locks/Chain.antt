-- ===== src/Engine/Locks/Chain.antt =====
-- Nodes that are linked in both directions: the last is added to, and any is taken out of the chain.
use wasm_cloud_computing_ben.Prelude.{ℕ, ◌≡◌, ◌≢◌, sym, List, [], ◌∷◌, ◌++◌, All, arith}
use wasm_cloud_computing_ben.Engine.{store_word}

-- The first node of a chain, or 0; the last one, or the node before the chain.
unfoldable pub first : List ℕ → ℕ
first [] = 0
first (x ∷ xs) = x

unfoldable pub last : ℕ → List ℕ → ℕ
last before [] = before
last before (x ∷ xs) = last x xs

-- The nodes are different, and each is linked to its neighbours.
unfoldable pub IsChain : (ℕ → ℕ) → (ℕ → ℕ) → ℕ → List ℕ → Type 0
IsChain next prev before [] = Unit
IsChain next prev before (x ∷ xs) =
    (x ≢ 0) × All (λ y. y ≢ x) xs × (prev x ≡ before) × (next x ≡ first xs) × IsChain next prev x xs

pub All-append :
    (x : ℕ) (xs ys : List ℕ)
    → All (λ y. y ≢ x) xs
    → All (λ y. y ≢ x) ys
    → All (λ y. y ≢ x) (xs ++ ys)
All-append x [] ys left right = right
All-append x (z ∷ xs) ys (here, left) right = (here, All-append x xs ys left right)

pub All-without :
    (x z : ℕ) (xs ys : List ℕ)
    → All (λ y. y ≢ x) (xs ++ z ∷ ys)
    → (z ≢ x) × All (λ y. y ≢ x) (xs ++ ys)
All-without x z [] ys (here, rest) = (here, rest)
All-without x z (w ∷ xs) ys (here, rest) =
    let (other, all) = All-without x z xs ys rest in (other, (here, all))

pub last-All : (x before : ℕ) (xs : List ℕ) → before ≢ x → All (λ y. y ≢ x) xs → last before xs ≢ x
unfolding last
last-All x before [] other all = other
last-All x before (y ∷ xs) other (here, all) = last-All x y xs here all

-- Stores at other nodes.
pub IsChain-next :
    (next prev : ℕ → ℕ) (a v before : ℕ) (xs : List ℕ)
    → All (λ y. y ≢ a) xs
    → IsChain next prev before xs
    → IsChain (store_word next a v) prev before xs
unfolding IsChain store_word
IsChain-next next prev a v before [] apart chain = tt
IsChain-next next prev a v before (x ∷ xs) (here, apart) (some_node, all, back, forth, chain) =
    let rest = IsChain-next next prev a v x xs apart chain in
    (some_node, all, back, ground arith, rest)

pub IsChain-prev :
    (next prev : ℕ → ℕ) (a v before : ℕ) (xs : List ℕ)
    → All (λ y. y ≢ a) xs
    → IsChain next prev before xs
    → IsChain next (store_word prev a v) before xs
unfolding IsChain store_word
IsChain-prev next prev a v before [] apart chain = tt
IsChain-prev next prev a v before (x ∷ xs) (here, apart) (some_node, all, back, forth, chain) =
    let rest = IsChain-prev next prev a v x xs apart chain in
    (some_node, all, ground arith, forth, rest)

-- A chain that begins behind another node.
IsChain-behind :
    (next prev : ℕ → ℕ) (before v : ℕ) (xs : List ℕ)
    → IsChain next prev before xs
    → IsChain next (store_word prev (first xs) v) v xs
unfolding IsChain store_word first
IsChain-behind next prev before v [] chain = tt
IsChain-behind next prev before v (x ∷ xs) (some_node, all, back, forth, chain) =
    let rest = IsChain-prev next prev x v x xs all chain in
    (some_node, all, ground arith, forth, rest)

-- A new node behind the last one.
pub IsChain-append :
    (next prev : ℕ → ℕ) (before x : ℕ) (xs : List ℕ)
    → x ≢ 0
    → All (λ y. y ≢ x) xs
    → next x ≡ 0
    → prev x ≡ last before xs
    → before ≢ x
    → IsChain next prev before xs
    → IsChain (store_word next (last before xs) x) prev before (xs ++ x ∷ [])
unfolding IsChain store_word last first
IsChain-append next prev before x [] node fresh end back other chain = ground arith
IsChain-append next prev before x (y ∷ []) node (here, fresh) end back other
      (some_node, all, behind, forth, chain) =
    let rest = IsChain-append next prev y x [] node fresh end back here chain in
    (some_node, (λ e. here (sym e), tt), behind, ground arith, rest)
IsChain-append next prev before x (y ∷ z ∷ xs) node (here, fresh) end back other
      (some_node, (differs, all), behind, forth, chain) =
    let rest = IsChain-append next prev y x (z ∷ xs) node fresh end back here chain in
    let farther = last-All y z xs differs all in
    (
      some_node,
      All-append y (z ∷ xs) (x ∷ []) (differs, all) (λ e. here (sym e), tt),
      behind,
      ground arith,
      rest,
    )

pub All-behind : (x : ℕ) (xs ys : List ℕ) → All (λ y. y ≢ x) (xs ++ ys) → All (λ y. y ≢ x) ys
All-behind x [] ys all = all
All-behind x (z ∷ xs) ys (here, all) = All-behind x xs ys all

pub All-front : (x : ℕ) (xs ys : List ℕ) → All (λ y. y ≢ x) (xs ++ ys) → All (λ y. y ≢ x) xs
All-front x [] ys all = tt
All-front x (z ∷ xs) ys (here, all) = (here, All-front x xs ys all)

first-All : (x : ℕ) (xs : List ℕ) → x ≢ 0 → All (λ y. y ≢ x) xs → first xs ≢ x
unfolding first
first-All x [] node all = λ e. node (sym e)
first-All x (y ∷ xs) node (here, all) = here

-- A node is taken out: its neighbours are linked.
pub IsChain-without :
    (next prev : ℕ → ℕ) (before x : ℕ) (ys zs : List ℕ)
    → All (λ y. y ≢ before) (ys ++ zs)
    → IsChain next prev before (ys ++ x ∷ zs)
    → IsChain
        (store_word next (last before ys) (first zs))
        (store_word prev (first zs) (last before ys))
        before
        (ys ++ zs)
unfolding IsChain store_word last first
IsChain-without next prev before x [] zs out (node, all, back, forth, chain) =
    IsChain-next next (store_word prev (first zs) before) before (first zs) before zs out
      (IsChain-behind next prev x before zs chain)
IsChain-without next prev before x (y ∷ []) zs out (node, all, back, forth, chain) =
    let (other, kept) = All-without y x [] zs all in
    let rest = IsChain-without next prev y x [] zs kept chain in
    let apart = first-All y zs node kept in (node, kept, ground arith, ground arith, rest)
IsChain-without next prev before x (y ∷ z ∷ ys) zs out (node, all, back, forth, chain) =
    let (other, kept) = All-without y x (z ∷ ys) zs all in
    let rest = IsChain-without next prev y x (z ∷ ys) zs kept chain in
    let apart = first-All y zs node (All-behind y (z ∷ ys) zs kept) in
    let (differs, others) = kept in
    let farther = last-All y z ys differs (All-front y ys zs others) in
    (node, kept, ground arith, ground arith, rest)
