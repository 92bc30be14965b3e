-- ===== src/Engine/Locks/Queue.antt =====
-- The queue of locks as a list, and the free nodes as a stack.
use wasm_cloud_computing_ben.Prelude.{
  ℕ, ◌≡◌, ◌≢◌, refl, sym, ap, ap₂, ◌==◌, false, not, List, [], ◌∷◌, ◌++◌, All, arith,
}
use wasm_cloud_computing_ben.Engine.{store_word}
use wasm_cloud_computing_ben.Engine.Fixlen.Freelist.{IsLinked}
use wasm_cloud_computing_ben.Engine.Locks.{lockq_read, Locks, enqueue}
use wasm_cloud_computing_ben.Engine.Locks.Fair.{Entry}
use wasm_cloud_computing_ben.Engine.Locks.Chain.{
  first, last, IsChain, IsChain-next, IsChain-prev, IsChain-append, All-append,
}

-- The free nodes are different from one another and from those of the queue.
unfoldable pub IsApart : List ℕ → List ℕ → Type 0
IsApart xs [] = Unit
IsApart xs (f ∷ fs) = All (λ y. y ≢ f) xs × All (λ y. y ≢ f) fs × IsApart xs fs

-- The locks of the queue in order, and the free nodes in the order of their use.
abbrev pub HasQueue : Locks → List ℕ → List ℕ → Type 0
HasQueue l xs fs =
    IsChain l.next l.prev 0 xs
    × (l.tail ≡ last 0 xs)
    × IsLinked l.next_cell l.freelist fs
    × IsApart xs fs

-- The entries of the locks.
unfoldable pub entries : (ℕ → ℕ) → (ℕ → ℕ) → List ℕ → List Entry
entries class waiting [] = []
entries class waiting (x ∷ xs) =
    (class x == lockq_read, not (waiting x == 0)) ∷ entries class waiting xs

abbrev pub view : Locks → List ℕ → List Entry
view l xs = entries l.class l.waiting xs

entries-class :
    (class waiting : ℕ → ℕ) (a v : ℕ) (xs : List ℕ)
    → All (λ y. y ≢ a) xs
    → entries (store_word class a v) waiting xs ≡ entries class waiting xs
unfolding entries store_word
entries-class class waiting a v [] apart = refl
entries-class class waiting a v (x ∷ xs) (here, apart) =
    ap₂ (λ e es. e ∷ es) (ground arith) (entries-class class waiting a v xs apart)

pub entries-waiting :
    (class waiting : ℕ → ℕ) (a v : ℕ) (xs : List ℕ)
    → All (λ y. y ≢ a) xs
    → entries class (store_word waiting a v) xs ≡ entries class waiting xs
unfolding entries store_word
entries-waiting class waiting a v [] apart = refl
entries-waiting class waiting a v (x ∷ xs) (here, apart) =
    ap₂ (λ e es. e ∷ es) (ground arith) (entries-waiting class waiting a v xs apart)

pub entries-append :
    (class waiting : ℕ → ℕ) (xs ys : List ℕ)
    → entries class waiting (xs ++ ys) ≡ entries class waiting xs ++ entries class waiting ys
unfolding entries
entries-append class waiting [] ys = refl
entries-append class waiting (x ∷ xs) ys =
    ap (λ es. (class x == lockq_read, not (waiting x == 0)) ∷ es)
      (entries-append class waiting xs ys)

IsApart-append :
    (x : ℕ) (xs fs : List ℕ) → All (λ y. y ≢ x) fs → IsApart xs fs → IsApart (xs ++ x ∷ []) fs
unfolding IsApart
IsApart-append x xs [] out apart = tt
IsApart-append x xs (f ∷ fs) (other, out) (free, rest, apart) =
    (All-append f xs (x ∷ []) free (λ e. other (sym e), tt), rest, IsApart-append x xs fs out apart)

pub last_nonzero :
    (next prev : ℕ → ℕ) (before y : ℕ) (xs : List ℕ)
    → IsChain next prev before (y ∷ xs)
    → last before (y ∷ xs) ≢ 0
unfolding IsChain last
last_nonzero next prev before y [] (node, all, back, forth, chain) = node
last_nonzero next prev before y (z ∷ xs) (node, all, back, forth, chain) =
    last_nonzero next prev y z xs chain

next_of_enqueue :
    (l : Locks) (x class waiting : ℕ)
    → l.tail ≢ 0
    → (enqueue l x class waiting).next ≡ store_word (store_word l.next x 0) l.tail x
unfolding enqueue
next_of_enqueue l x class waiting some_tail =
    let full : (l.tail == 0) ≡ false = ground arith in rw full refl

prev_of_enqueue :
    (l : Locks) (x class waiting : ℕ)
    → (enqueue l x class waiting).prev ≡ store_word l.prev x l.tail
unfolding enqueue
prev_of_enqueue l x class waiting = refl

store_word_at : (memory : ℕ → ℕ) (a v : ℕ) → store_word memory a v a ≡ v
unfolding store_word
store_word_at memory a v = ground arith

single :
    (l : Locks) (x class waiting : ℕ)
    → x ≢ 0
    → l.tail ≡ last 0 []
    → IsChain (enqueue l x class waiting).next (enqueue l x class waiting).prev 0 (x ∷ [])
unfolding enqueue IsChain last first store_word
single l x class waiting node end = ground arith

IsChain-enqueue :
    (l : Locks) (x class waiting : ℕ) (xs : List ℕ)
    → x ≢ 0
    → All (λ y. y ≢ x) xs
    → IsChain l.next l.prev 0 xs
    → l.tail ≡ last 0 xs
    → IsChain (enqueue l x class waiting).next (enqueue l x class waiting).prev 0 (xs ++ x ∷ [])
IsChain-enqueue l x class waiting [] node fresh chain end = single l x class waiting node end
IsChain-enqueue l x class waiting (y ∷ xs) node fresh chain end =
    let some_tail : l.tail ≢ 0 = rw end (last_nonzero l.next l.prev 0 y xs chain) in
    let kept =
      IsChain-prev (store_word l.next x 0) l.prev x l.tail 0 (y ∷ xs) fresh
        (IsChain-next l.next l.prev x 0 0 (y ∷ xs) fresh chain) in
    rw (next_of_enqueue l x class waiting some_tail, prev_of_enqueue l x class waiting, end)
      (IsChain-append (store_word l.next x 0) (store_word l.prev x (last 0 (y ∷ xs))) 0 x (y ∷ xs)
        node fresh (store_word_at l.next x 0) (store_word_at l.prev x (last 0 (y ∷ xs)))
        (λ e. node (sym e)) (rw (sym end) kept))

last-append : (before x : ℕ) (xs : List ℕ) → last before (xs ++ x ∷ []) ≡ x
unfolding last
last-append before x [] = refl
last-append before x (y ∷ xs) = last-append y x xs

own :
    (old_class old_waiting : ℕ → ℕ) (x class waiting : ℕ)
    → entries (store_word old_class x class) (store_word old_waiting x waiting) (x ∷ [])
      ≡ (class == lockq_read, not (waiting == 0)) ∷ []
unfolding entries store_word
own old_class old_waiting x class waiting = ground arith

pub view_of_enqueue :
    (l : Locks) (x class waiting : ℕ) (xs : List ℕ)
    → All (λ y. y ≢ x) xs
    → view (enqueue l x class waiting) (xs ++ x ∷ [])
      ≡ view l xs ++ (class == lockq_read, not (waiting == 0)) ∷ []
unfolding enqueue
view_of_enqueue l x class waiting xs fresh =
    rw
      (
        entries-append (store_word l.class x class) (store_word l.waiting x waiting) xs (x ∷ []),
        entries-class l.class (store_word l.waiting x waiting) x class xs fresh,
        entries-waiting l.class l.waiting x waiting xs fresh,
      )
      (ap (λ e. view l xs ++ e) (own l.class l.waiting x class waiting))

-- A free node that is taken becomes the last of the queue.
pub enqueue-HasQueue :
    (l : Locks) (x class waiting : ℕ) (xs fs : List ℕ)
    → HasQueue l xs fs
    → x ≢ 0
    → All (λ y. y ≢ x) xs
    → All (λ y. y ≢ x) fs
    → HasQueue (enqueue l x class waiting) (xs ++ x ∷ []) fs
unfolding enqueue
enqueue-HasQueue l x class waiting xs fs (chain, end, free, apart) node fresh used = (
  IsChain-enqueue l x class waiting xs node fresh chain end,
  sym (last-append 0 x xs),
  free,
  IsApart-append x xs fs used apart,
)
