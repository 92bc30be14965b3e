-- ===== src/Engine/Locks/Release.antt =====
-- The functions of dblock.c that release a lock, on the list of the queue.
use wasm_cloud_computing_ben.Prelude.{
  ℕ, ◌≡◌, ◌≢◌, refl, ap, ◌∙◌, ◌==◌, Bool, true, false, not, ◌&&◌, ◌||◌, List, [], ◌∷◌, ◌++◌, arith,
}
use wasm_cloud_computing_ben.Engine.Locks.{
  Locks, free_lock, link_prev, link_next, pass_on, db_tfqueue_wulock, db_tfqueue_rulock,
}
use wasm_cloud_computing_ben.Engine.Locks.Chain.{first, last, IsChain, All-front, last-All}
use wasm_cloud_computing_ben.Engine.Locks.Fair.{wake, wake_if_reader, remove}
use wasm_cloud_computing_ben.Engine.Locks.Queue.{HasQueue, entries, view}
use wasm_cloud_computing_ben.Engine.Locks.Woken.{view_woken, view_of_next, view_of_reader}
use wasm_cloud_computing_ben.Engine.Locks.Links.{
  linked-next, linked-prev, linked-tail, linked-waiting, linked_rest, passed,
}
use wasm_cloud_computing_ben.Engine.Locks.Leave.{chain_at, chain_nonzero, left-HasQueue}

nothing : (l k : Locks) → view l [] ≡ wake (view k [])
unfolding entries wake
nothing l k = refl

and_true : (b : Bool) → (b && (true || false)) ≡ b
and_true true = refl
and_true false = refl

view_nil : (l : Locks) (ys : List ℕ) → view l (ys ++ []) ≡ view l ys ++ wake_if_reader (view l [])
unfolding entries wake_if_reader
view_nil l [] = refl
view_nil l (y ∷ ys) = ap (λ es. (l.class y == 2, not (l.waiting y == 0)) ∷ es) (view_nil l ys)

none_before : last 0 [] ≡ 0
unfolding last
none_before = refl

-- The view behind a writer, and behind a reader; the chain is that of the locks that are left.
view_passed :
    (l : Locks) (next prev : ℕ → ℕ) (x : ℕ) (zs : List ℕ)
    → l.prev x ≡ 0
    → l.next x ≡ first zs
    → IsChain next prev 0 zs
    → view (pass_on l x) zs ≡ wake (view l zs)
unfolding first
view_passed l next prev x [] head forth chain = nothing (pass_on l x) l
view_passed l next prev x (z ∷ zs) head forth chain =
    let (node, back, ahead, out) = chain_at next prev 0 z [] zs chain in
    let (_, _, _, _, _, class, waiting) = passed l x head in
    let some_next : (z == 0) ≡ false = ground arith in
    rw (class, waiting, forth, some_next) (view_woken l.class l.waiting z zs out)

view_linked_head :
    (l : Locks) (next prev : ℕ → ℕ) (x : ℕ) (zs : List ℕ)
    → l.prev x ≡ 0
    → l.next x ≡ first zs
    → IsChain next prev 0 zs
    → view (link_next (link_prev l x) x) zs ≡ wake (view l zs)
unfolding first
view_linked_head l next prev x [] head forth chain = nothing (link_next (link_prev l x) x) l
view_linked_head l next prev x (z ∷ zs) head forth chain =
    let (node, back, ahead, out) = chain_at next prev 0 z [] zs chain in
    let (_, _, class) = linked_rest l x in
    let some_next : (z == 0) ≡ false = ground arith in
    rw (class, linked-waiting l x, forth, some_next, head, and_true (not (l.waiting z == 0)))
      (view_of_next l.class l.waiting z zs out)

view_linked :
    (l : Locks) (next prev : ℕ → ℕ) (x : ℕ) (ys zs : List ℕ)
    → l.prev x ≢ 0
    → l.next x ≡ first zs
    → IsChain next prev 0 (ys ++ zs)
    → view (link_next (link_prev l x) x) (ys ++ zs) ≡ view l ys ++ wake_if_reader (view l zs)
unfolding first
view_linked l next prev x ys [] some_prev forth chain =
    let (_, _, class) = linked_rest l x in rw (class, linked-waiting l x, forth) (view_nil l ys)
view_linked l next prev x ys (z ∷ zs) some_prev forth chain =
    let (node, back, ahead, out) = chain_at next prev 0 z ys zs chain in
    let (_, _, class) = linked_rest l x in
    let some_next : (z == 0) ≡ false = ground arith in
    let full : (l.prev x == 0) ≡ false = ground arith in
    rw (class, linked-waiting l x, forth, some_next, full)
      (view_of_reader l.class l.waiting z ys zs out)

view_removed :
    (l : Locks) (next prev : ℕ → ℕ) (x : ℕ) (ys zs : List ℕ)
    → l.prev x ≡ last 0 ys
    → l.next x ≡ first zs
    → IsChain next prev 0 (ys ++ zs)
    → view (link_next (link_prev l x) x) (ys ++ zs) ≡ remove (view l ys) (view l zs)
unfolding remove entries last
view_removed l next prev x [] zs back forth chain =
    view_linked_head l next prev x zs (back ∙ none_before) forth chain
view_removed l next prev x (y ∷ ys) zs back forth chain =
    let (node, nodes) = chain_nonzero next prev 0 (y ∷ ys ++ zs) chain in
    let some_prev : l.prev x ≢ 0 = rw back (last-All 0 y ys node (All-front 0 ys zs nodes)) in
    view_linked l next prev x (y ∷ ys) zs some_prev forth chain

view_freed : (l : Locks) (x : ℕ) (xs : List ℕ) → view (free_lock l x) xs ≡ view l xs
unfolding free_lock
view_freed l x xs = refl

-- In a well-formed queue, the first lock leaves as a writer's does: 1 is returned, the queue is well formed
-- without the lock, whose node is the first that is free; the next one holds its lock, and no other entry
-- changes.
pub db_tfqueue_wulock-HasQueue :
    (l : Locks) (x : ℕ) (zs fs : List ℕ)
    → HasQueue l (x ∷ zs) fs
    → ((db_tfqueue_wulock true l x).0 ≡ 1)
      × HasQueue (db_tfqueue_wulock true l x).1 zs (x ∷ fs)
      × (view (db_tfqueue_wulock true l x).1 zs ≡ wake (view l zs))
unfolding db_tfqueue_wulock
db_tfqueue_wulock-HasQueue l x zs fs (chain, end, free, apart) =
    let (node, back, forth, out) = chain_at l.next l.prev 0 x [] zs chain in
    let head = back ∙ none_before in
    let (next, prev, tail, cells, top, class, waiting) = passed l x head in
    let queue =
      left-HasQueue l (pass_on l x) x [] zs fs (chain, end, free, apart) next prev tail cells top in
    (
      refl,
      queue,
      view_freed (pass_on l x) x zs
          ∙ view_passed l (free_lock (pass_on l x) x).next (free_lock (pass_on l x) x).prev x zs
              head forth queue.0,
    )

-- In a well-formed queue, a lock at any place of it leaves as a reader's does: 1 is returned, the queue is
-- well formed without the lock, whose node is the first that is free. If it was the first of the queue, the
-- next one holds its lock; else the next one does if it is a reader's. No other entry changes.
pub db_tfqueue_rulock-HasQueue :
    (l : Locks) (x : ℕ) (ys zs fs : List ℕ)
    → HasQueue l (ys ++ x ∷ zs) fs
    → ((db_tfqueue_rulock true l x).0 ≡ 1)
      × HasQueue (db_tfqueue_rulock true l x).1 (ys ++ zs) (x ∷ fs)
      × (view (db_tfqueue_rulock true l x).1 (ys ++ zs) ≡ remove (view l ys) (view l zs))
unfolding db_tfqueue_rulock
db_tfqueue_rulock-HasQueue l x ys zs fs queue =
    let left = link_next (link_prev l x) x in
    let (cells, top, class) = linked_rest l x in
    let kept =
      left-HasQueue l left x ys zs fs queue (linked-next l x) (linked-prev l x) (linked-tail l x)
        cells top in
    let (node, back, forth, out) = chain_at l.next l.prev 0 x ys zs queue.0 in
    (
      refl,
      kept,
      view_freed left x (ys ++ zs)
          ∙ view_removed l (free_lock left x).next (free_lock left x).prev x ys zs back forth
              kept.0,
    )
