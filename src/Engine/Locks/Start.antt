-- ===== src/Engine/Locks/Start.antt =====
-- `wg_init_locks` of dblock.c: the free nodes are linked in order.
use wasm_cloud_computing_ben.Prelude.{
  ℕ, zero, suc, ◌+◌, ◌*◌, ◌<◌, ◌≡◌, ◌≢◌, refl, ◌∙◌, true, List, [], ◌∷◌, All, arith,
}
use wasm_cloud_computing_ben.Prelude.Int.{pos}
use wasm_cloud_computing_ben.Engine.{store_word}
use wasm_cloud_computing_ben.Engine.Fixlen.Freelist.{IsLinked, objects}
use wasm_cloud_computing_ben.Engine.Locks.{Locks, init_cells, wg_init_locks}
use wasm_cloud_computing_ben.Engine.Locks.Chain.{last, IsChain}
use wasm_cloud_computing_ben.Engine.Locks.Queue.{IsApart, HasQueue}

-- The words below the loop's first node.
init_cells_below :
    (fuel wall tmp : ℕ) (next_cell : ℕ → ℕ) (i a : ℕ)
    → a < i
    → a ≢ tmp
    → init_cells fuel wall tmp next_cell i a ≡ next_cell a
unfolding init_cells store_word
init_cells_below zero wall tmp next_cell i a below other = ground arith
init_cells_below (suc fuel) wall tmp next_cell i a below other =
    ground (arith, init_cells_below fuel wall i (store_word next_cell i (i + 128)) (i + 128) a)

init_cells_next :
    (n wall tmp : ℕ) (next_cell : ℕ → ℕ) (i : ℕ)
    → i < wall
    → init_cells (suc n) wall tmp next_cell i
      ≡ init_cells n wall i (store_word next_cell i (i + 128)) (i + 128)
unfolding init_cells
init_cells_next n wall tmp next_cell i more = ground arith

IsLinked-first :
    (memory : ℕ → ℕ) (x y : ℕ) (xs : List ℕ)
    → x ≢ 0
    → memory x ≡ y
    → IsLinked memory y xs
    → IsLinked memory x (x ∷ xs)
unfolding IsLinked
IsLinked-first memory x y xs node word linked = (refl, node, rw word linked)

other_word : (memory : ℕ → ℕ) (a b v w : ℕ) → a ≢ b → memory a ≡ w → store_word memory b v a ≡ w
unfolding store_word
other_word memory a b v w other word = ground arith

own_word : (memory : ℕ → ℕ) (a v : ℕ) → store_word memory a v a ≡ v
unfolding store_word
own_word memory a v = ground arith

last_cell :
    (wall tmp : ℕ) (next_cell : ℕ → ℕ) (i : ℕ)
    → 0 < tmp
    → IsLinked (init_cells 0 wall tmp next_cell i) tmp (tmp ∷ [])
unfolding init_cells IsLinked store_word
last_cell wall tmp next_cell i some_node = ground arith

-- The loop, from its second node on.
init_cells-IsLinked :
    (n wall tmp : ℕ) (next_cell : ℕ → ℕ) (i : ℕ)
    → 0 < tmp
    → i ≡ tmp + 128
    → wall ≡ i + n * 128
    → next_cell tmp ≡ i
    → IsLinked (init_cells n wall tmp next_cell i) tmp (tmp ∷ objects n 128 i)
unfolding objects
init_cells-IsLinked zero wall tmp next_cell i some_node behind end word =
    last_cell wall tmp next_cell i some_node
init_cells-IsLinked (suc n) wall tmp next_cell i some_node behind end word =
    let stored = store_word next_cell i (i + 128) in
    let rest =
      init_cells-IsLinked n wall i stored (i + 128) (omega arith) refl (omega arith)
        (own_word next_cell i (i + 128)) in
    rw (init_cells_next n wall tmp next_cell i (omega arith)) (
      IsLinked-first (init_cells n wall i stored (i + 128)) tmp i (i ∷ objects n 128 (i + 128))
        (omega arith)
        (init_cells_below n wall i stored (i + 128) tmp (omega arith) (omega arith)
          ∙ other_word next_cell tmp i (i + 128) i (omega arith) word)
        rest)

objects_above : (n i a : ℕ) → a < i → All (λ y. y ≢ a) (objects n 128 i)
unfolding objects
objects_above zero i a below = tt
objects_above (suc n) i a below = (omega arith, objects_above n (i + 128) a (omega arith))

IsApart-objects : (n i : ℕ) → IsApart [] (objects n 128 i)
unfolding objects IsApart
IsApart-objects zero i = tt
IsApart-objects (suc n) i =
    (tt, objects_above n (i + 128) i (omega arith), IsApart-objects n (i + 128))

cells-IsLinked :
    (next_cell : ℕ → ℕ) (storage n : ℕ)
    → 0 < storage
    → IsLinked
        (init_cells (suc n) (storage + suc n * 128) 0 next_cell storage)
        storage
        (objects (suc n) 128 storage)
unfolding objects
cells-IsLinked next_cell storage n some_storage =
    rw (init_cells_next n (storage + suc n * 128) 0 next_cell storage (omega arith)) (
      init_cells-IsLinked n (storage + suc n * 128) storage
        (store_word next_cell storage (storage + 128)) (storage + 128) some_storage refl
        (omega arith) (own_word next_cell storage (storage + 128)))

-- With a storage that does not begin at 0 and at least one node, `wg_init_locks` returns 0 and leaves a
-- well-formed queue without locks, in which all nodes of the storage are free, in order.
pub wg_init_locks-HasQueue :
    (l : Locks) (n : ℕ)
    → 0 < l.storage
    → l.max_nodes ≡ suc n
    → ((wg_init_locks true l).0 ≡ pos 0)
      × HasQueue (wg_init_locks true l).1 [] (objects (suc n) 128 l.storage)
unfolding wg_init_locks IsChain last
wg_init_locks-HasQueue l n some_storage nodes = (
  refl,
  (
    tt,
    refl,
    rw nodes (cells-IsLinked l.next_cell l.storage n some_storage),
    IsApart-objects (suc n) l.storage,
  ),
)
