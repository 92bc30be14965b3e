-- ===== src/Engine/Locks/Leave.antt =====
-- A lock that leaves the queue.
use wasm_cloud_computing_ben.Prelude.{
  ℕ, ◌≡◌, ◌≢◌, refl, sym, ◌∙◌, ◌==◌, true, false, if◌then◌else◌, List, [], ◌∷◌, ◌++◌, All,
  Bool-cases, inl, inr, arith,
}
use wasm_cloud_computing_ben.Engine.{store_word}
use wasm_cloud_computing_ben.Engine.Fixlen.Freelist.{IsLinked, IsLinked-store_word, store_word_same}
use wasm_cloud_computing_ben.Engine.Locks.{Locks, free_lock}
use wasm_cloud_computing_ben.Engine.Locks.Chain.{first, last, IsChain, IsChain-without, All-without}
use wasm_cloud_computing_ben.Engine.Locks.Queue.{IsApart, HasQueue}

pub chain_at :
    (next prev : ℕ → ℕ) (before x : ℕ) (ys zs : List ℕ)
    → IsChain next prev before (ys ++ x ∷ zs)
    → (x ≢ 0) × (prev x ≡ last before ys) × (next x ≡ first zs) × All (λ y. y ≢ x) (ys ++ zs)
unfolding IsChain last
chain_at next prev before x [] zs (node, all, back, forth, chain) = (node, back, forth, all)
chain_at next prev before x (y ∷ ys) zs (node, all, back, forth, chain) =
    let (here, behind, ahead, out) = chain_at next prev y x ys zs chain in
    let (other, kept) = All-without y x ys zs all in
    (here, behind, ahead, (λ e. other (sym e), out))

pub chain_nonzero :
    (next prev : ℕ → ℕ) (before : ℕ) (xs : List ℕ)
    → IsChain next prev before xs
    → All (λ y. y ≢ 0) xs
unfolding IsChain
chain_nonzero next prev before [] chain = tt
chain_nonzero next prev before (x ∷ xs) (node, all, back, forth, chain) =
    (node, chain_nonzero next prev x xs chain)

-- The word at 0 is of no node.
drop_next :
    (next prev : ℕ → ℕ) (a v before : ℕ) (xs : List ℕ)
    → a ≡ 0
    → IsChain (store_word next a v) prev before xs
    → IsChain next prev before xs
unfolding IsChain store_word
drop_next next prev a v before [] at chain = tt
drop_next next prev a v before (x ∷ xs) at (node, all, back, forth, chain) =
    let rest = drop_next next prev a v x xs at chain in (node, all, back, ground arith, rest)

drop_prev :
    (next prev : ℕ → ℕ) (a v before : ℕ) (xs : List ℕ)
    → a ≡ 0
    → IsChain next (store_word prev a v) before xs
    → IsChain next prev before xs
unfolding IsChain store_word
drop_prev next prev a v before [] at chain = tt
drop_prev next prev a v before (x ∷ xs) at (node, all, back, forth, chain) =
    let rest = drop_prev next prev a v x xs at chain in (node, all, ground arith, forth, rest)

IsApart-without :
    (x : ℕ) (ys zs fs : List ℕ)
    → IsApart (ys ++ x ∷ zs) fs
    → All (λ y. y ≢ x) fs × IsApart (ys ++ zs) fs
unfolding IsApart
IsApart-without x ys zs [] apart = (tt, tt)
IsApart-without x ys zs (f ∷ fs) (free, used, apart) =
    let (other, kept) = All-without f x ys zs free in
    let (out, rest) = IsApart-without x ys zs fs apart in
    ((λ e. other (sym e), out), (kept, used, rest))

last-append : (before z : ℕ) (ys zs : List ℕ) → last before (ys ++ z ∷ zs) ≡ last z zs
unfolding last
last-append before z [] zs = refl
last-append before z (y ∷ ys) zs = last-append y z ys zs

IsChain-linked :
    (next prev : ℕ → ℕ) (p n : ℕ) (xs : List ℕ)
    → IsChain (store_word next p n) (store_word prev n p) 0 xs
    → IsChain
        (if p == 0 then next else store_word next p n)
        (if n == 0 then prev else store_word prev n p)
        0
        xs
IsChain-linked next prev p n xs chain = elim (Bool-cases (p == 0)) [
  | inl no_prev ↦
      let left = drop_next next (store_word prev n p) p n 0 xs (ground arith) chain in
      rw no_prev (right_linked next left)
  | inr some_prev ↦ rw some_prev (right_linked (store_word next p n) chain)
]
  where
    right_linked :
        (next : ℕ → ℕ)
        → IsChain next (store_word prev n p) 0 xs
        → IsChain next (if n == 0 then prev else store_word prev n p) 0 xs
    right_linked next left = elim (Bool-cases (n == 0)) [
      | inl no_next ↦ rw no_next (drop_prev next prev n p 0 xs (ground arith) left)
      | inr some_next ↦ rw some_next left
    ]

last_nil : (before : ℕ) (xs : List ℕ) → last before (xs ++ []) ≡ last before xs
unfolding last
last_nil before [] = refl
last_nil before (x ∷ xs) = last_nil x xs

tail_linked :
    (tail x : ℕ) (ys zs : List ℕ)
    → All (λ y. y ≢ 0) zs
    → tail ≡ last 0 (ys ++ x ∷ zs)
    → (if first zs == 0 then if tail == x then last 0 ys else tail else tail) ≡ last 0 (ys ++ zs)
unfolding first last
tail_linked tail x ys [] nodes end =
    let at : tail ≡ x = end ∙ last-append 0 x ys [] in
    let same : (tail == x) ≡ true = ground arith in rw same (sym (last_nil 0 ys))
tail_linked tail x ys (z ∷ zs) (node, nodes) end =
    let same : tail ≡ last 0 (ys ++ z ∷ zs) =
      end ∙ last-append 0 x ys (z ∷ zs) ∙ sym (last-append 0 z ys zs) in
    let some_next : (z == 0) ≡ false = ground arith in rw some_next same

free_lock-HasQueue :
    (l : Locks) (x : ℕ) (xs fs : List ℕ)
    → HasQueue l xs fs
    → x ≢ 0
    → All (λ y. y ≢ x) xs
    → All (λ y. y ≢ x) fs
    → HasQueue (free_lock l x) xs (x ∷ fs)
unfolding free_lock IsLinked IsApart
free_lock-HasQueue l x xs fs (chain, end, free, apart) node out used =
    let kept = IsLinked-store_word l.next_cell x l.freelist l.freelist fs used free in
    (
      chain,
      end,
      (refl, node, rw (store_word_same l.next_cell x l.freelist) kept),
      (out, used, apart),
    )

All-second : (ys zs : List ℕ) → All (λ y. y ≢ 0) (ys ++ zs) → All (λ y. y ≢ 0) zs
All-second [] zs all = all
All-second (y ∷ ys) zs (here, all) = All-second ys zs all

-- A lock leaves from any place of the queue, if its neighbours are linked.
pub left-HasQueue :
    (l left : Locks) (x : ℕ) (ys zs fs : List ℕ)
    → HasQueue l (ys ++ x ∷ zs) fs
    → left.next ≡ (if l.prev x == 0 then l.next else store_word l.next (l.prev x) (l.next x))
    → left.prev ≡ (if l.next x == 0 then l.prev else store_word l.prev (l.next x) (l.prev x))
    → left.tail ≡ (if l.next x == 0 then if l.tail == x then l.prev x else l.tail else l.tail)
    → left.next_cell ≡ l.next_cell
    → left.freelist ≡ l.freelist
    → HasQueue (free_lock left x) (ys ++ zs) (x ∷ fs)
left-HasQueue l left x ys zs fs (chain, end, free, apart) next prev tail cells top =
    let (node, back, forth, out) = chain_at l.next l.prev 0 x ys zs chain in
    let nodes = All-without 0 x ys zs (chain_nonzero l.next l.prev 0 (ys ++ x ∷ zs) chain) in
    let (used, rest) = IsApart-without x ys zs fs apart in
    let linked =
      IsChain-linked l.next l.prev (last 0 ys) (first zs) (ys ++ zs)
        (IsChain-without l.next l.prev 0 x ys zs nodes.1 chain) in
    free_lock-HasQueue left x (ys ++ zs) fs
      (
        rw (next, prev, back, forth) linked,
        rw (tail, back, forth) (tail_linked l.tail x ys zs (All-second ys zs nodes.1) end),
        rw (cells, top) free,
        rest,
      )
      node out used
