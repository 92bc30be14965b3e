-- ===== src/Engine/Locks/Order.antt =====
-- The functions of dblock.c that take a lock, on the list of the queue.
use wasm_cloud_computing_ben.Prelude.{
  ℕ, ◌≡◌, ◌≢◌, refl, ap, ◌∙◌, ◌==◌, Bool, true, false, not, if◌then◌else◌, List, [], ◌∷◌, ◌++◌, All,
  Bool-cases, inl, inr, arith,
}
use wasm_cloud_computing_ben.Engine.Fixlen.Freelist.{IsLinked}
use wasm_cloud_computing_ben.Engine.Locks.{
  Locks, alloc_lock, db_tfqueue_wlock, is_read_delayed, enter_rlock,
}
use wasm_cloud_computing_ben.Engine.Locks.Chain.{last, IsChain}
use wasm_cloud_computing_ben.Engine.Locks.Fair.{add_writer, add_reader, is_delayed, is_some}
use wasm_cloud_computing_ben.Engine.Locks.Queue.{
  IsApart, HasQueue, entries, view, view_of_enqueue, enqueue-HasQueue, last_nonzero,
}

alloc_lock-HasQueue :
    (l : Locks) (x : ℕ) (xs fs : List ℕ)
    → HasQueue l xs (x ∷ fs)
    → (alloc_lock l ≡ (x, record l { freelist = l.next_cell x }))
      × HasQueue (record l { freelist = l.next_cell x }) xs fs
      × (x ≢ 0)
      × All (λ y. y ≢ x) xs
      × All (λ y. y ≢ x) fs
unfolding alloc_lock IsLinked IsApart
alloc_lock-HasQueue l x xs fs (chain, end, (at, node, free), (fresh, used, apart)) =
    let some_node : (x == 0) ≡ false = ground arith in
    (rw (at, some_node) refl, (chain, end, free, apart), node, fresh, used)

tail_is_some :
    (l : Locks) (xs : List ℕ)
    → IsChain l.next l.prev 0 xs
    → l.tail ≡ last 0 xs
    → not ((if l.tail == 0 then 0 else 1) == 0) ≡ is_some (view l xs)
unfolding is_some entries last
tail_is_some l [] chain end = ground arith
tail_is_some l (y ∷ xs) chain end =
    let some_tail : l.tail ≢ 0 = rw end (last_nonzero l.next l.prev 0 y xs chain) in
    let full : (l.tail == 0) ≡ false = ground arith in rw full refl

-- In a well-formed queue with a free node, a writer gets the first free node, which becomes the last of the
-- well-formed queue, and waits just if the queue was not empty; no other entry changes.
pub db_tfqueue_wlock-HasQueue :
    (l : Locks) (x : ℕ) (xs fs : List ℕ)
    → HasQueue l xs (x ∷ fs)
    → ((db_tfqueue_wlock true l).0 ≡ x)
      × HasQueue (db_tfqueue_wlock true l).1 (xs ++ x ∷ []) fs
      × (view (db_tfqueue_wlock true l).1 (xs ++ x ∷ []) ≡ add_writer (view l xs))
unfolding db_tfqueue_wlock add_writer
db_tfqueue_wlock-HasQueue l x xs fs queue =
    let (allocated, (chain, end, free, apart), node, fresh, used) =
      alloc_lock-HasQueue l x xs fs queue in
    let l' : Locks = record l { freelist = l.next_cell x } in
    let waiting : ℕ = if l.tail == 0 then 0 else 1 in
    let some_node : (x == 0) ≡ false = ground arith in
    rw (allocated, some_node)
      (
        refl,
        enqueue-HasQueue l' x 4 waiting xs fs (chain, end, free, apart) node fresh used,
        view_of_enqueue l' x 4 waiting xs fresh
            ∙ ap (λ w. view l xs ++ (false, w) ∷ []) (tail_is_some l xs chain end),
      )

one_delayed : (l : Locks) (y : ℕ) → y ≢ 0 → is_read_delayed l y ≡ is_delayed (view l (y ∷ []))
unfolding is_read_delayed is_delayed entries
one_delayed l y node = elim (Bool-cases (l.class y == 2)) [
  | inl reads ↦ elim (Bool-cases (l.waiting y == 0)) [
    | inl holds ↦ ground arith
    | inr waits ↦ ground arith
  ]
  | inr writes ↦ ground arith
]

later :
    (l : Locks) (y z : ℕ) (xs : List ℕ)
    → is_delayed (view l (z ∷ xs)) ≡ is_delayed (view l (y ∷ z ∷ xs))
unfolding entries is_delayed
later l y z xs = refl

last_delayed :
    (l : Locks) (before y : ℕ) (xs : List ℕ)
    → IsChain l.next l.prev before (y ∷ xs)
    → is_read_delayed l (last before (y ∷ xs)) ≡ is_delayed (view l (y ∷ xs))
unfolding IsChain last
last_delayed l before y [] (node, all, back, forth, chain) = one_delayed l y node
last_delayed l before y (z ∷ xs) (node, all, back, forth, chain) =
    last_delayed l y z xs chain ∙ later l y z xs

as_number : (b : Bool) → not ((if b then 1 else 0) == 0) ≡ b
as_number true = refl
as_number false = refl

tail_delayed :
    (l : Locks) (xs : List ℕ)
    → IsChain l.next l.prev 0 xs
    → l.tail ≡ last 0 xs
    → not ((if is_read_delayed l l.tail then 1 else 0) == 0) ≡ is_delayed (view l xs)
unfolding last entries is_delayed is_read_delayed
tail_delayed l [] chain end = ground arith
tail_delayed l (y ∷ xs) chain end =
    as_number (is_read_delayed l l.tail) ∙ ap (is_read_delayed l) end ∙ last_delayed l 0 y xs chain

-- In a well-formed queue with a free node, a reader gets the first free node, which becomes the last of the
-- well-formed queue, and waits unless the queue was empty or its last lock is of a reader that does not
-- wait; no other entry changes.
pub enter_rlock-HasQueue :
    (l : Locks) (x : ℕ) (xs fs : List ℕ)
    → HasQueue l xs (x ∷ fs)
    → ((enter_rlock l).0 ≡ x)
      × HasQueue (enter_rlock l).1 (xs ++ x ∷ []) fs
      × (view (enter_rlock l).1 (xs ++ x ∷ []) ≡ add_reader (view l xs))
unfolding enter_rlock add_reader
enter_rlock-HasQueue l x xs fs queue =
    let (allocated, (chain, end, free, apart), node, fresh, used) =
      alloc_lock-HasQueue l x xs fs queue in
    let l' : Locks = record l { freelist = l.next_cell x } in
    let waiting : ℕ = if is_read_delayed l' l.tail then 1 else 0 in
    let some_node : (x == 0) ≡ false = ground arith in
    rw (allocated, some_node)
      (
        refl,
        enqueue-HasQueue l' x 2 waiting xs fs (chain, end, free, apart) node fresh used,
        view_of_enqueue l' x 2 waiting xs fresh
            ∙ ap (λ w. view l xs ++ (true, w) ∷ []) (tail_delayed l' xs chain end),
      )
