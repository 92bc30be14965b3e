-- ===== src/Engine/Locks/Fair.antt =====
-- What the queue of locks of dblock.c promises, on lists of its entries: the steps of threads that respect
-- `waiting`, and which locks are held together.
pub mod Exclusion
use wasm_cloud_computing_ben.Prelude.{◌≡◌, refl, Bool, true, false, List, [], ◌∷◌, ◌++◌, All, arith}

-- The lock of a reader, or else of a writer; whether it waits.
abbrev pub Entry : Type 0
Entry = Bool × Bool

-- Whether a reader behind these has to wait: not behind a reader that does not wait.
unfoldable pub is_delayed : List Entry → Bool
is_delayed [] = false
is_delayed ((true, false) ∷ []) = false
is_delayed ((true, true) ∷ []) = true
is_delayed ((false, waits) ∷ []) = true
is_delayed (e ∷ d ∷ q) = is_delayed (d ∷ q)

unfoldable pub is_some : List Entry → Bool
is_some [] = false
is_some (e ∷ q) = true

unfoldable pub add_writer : List Entry → List Entry
add_writer q = q ++ (false, is_some q) ∷ []

unfoldable pub add_reader : List Entry → List Entry
add_reader q = q ++ (true, is_delayed q) ∷ []

unfoldable pub wake : List Entry → List Entry
wake [] = []
wake ((reads, waits) ∷ q) = (reads, false) ∷ q

unfoldable pub wake_if_reader : List Entry → List Entry
wake_if_reader [] = []
wake_if_reader ((true, waits) ∷ q) = (true, false) ∷ q
wake_if_reader ((false, waits) ∷ q) = (false, waits) ∷ q

unfoldable pub remove : List Entry → List Entry → List Entry
remove [] zs = wake zs
remove (y ∷ ys) zs = y ∷ ys ++ wake_if_reader zs

-- A writer and a reader come; a writer that holds its lock leaves; a reader that holds its lock wakes
-- the one behind, or leaves.
pub data Step : List Entry → List Entry → Type 0 where
  writer_comes : {q : List Entry} → Step q (add_writer q)
  reader_comes : {q : List Entry} → Step q (add_reader q)
  writer_leaves : {q : List Entry} → Step ((false, false) ∷ q) (wake q)
  reader_wakes :
      (ys zs : List Entry)
      → Step (ys ++ (true, false) ∷ zs) (ys ++ (true, false) ∷ wake_if_reader zs)
  reader_leaves : (ys zs : List Entry) → Step (ys ++ (true, false) ∷ zs) (remove ys zs)

abbrev pub AllWait : List Entry → Type 0
AllWait q = All (λ e. e.1 ≡ true) q

-- Readers that hold their locks, before those that wait.
unfoldable pub IsShared : List Entry → Type 0
IsShared [] = Unit
IsShared ((true, false) ∷ q) = IsShared q
IsShared ((false, false) ∷ q) = ⊥
IsShared ((reads, true) ∷ q) = AllWait q

-- One writer alone holds a lock, or readers do; somebody does if there is an entry.
unfoldable pub IsExclusive : List Entry → Type 0
IsExclusive [] = Unit
IsExclusive ((false, false) ∷ q) = AllWait q
IsExclusive ((true, false) ∷ q) = IsShared q
IsExclusive ((reads, true) ∷ q) = ⊥

-- The queues that steps lead to.
pub data Reachable : List Entry → Type 0 where
  none_yet : Reachable []
  after : {q q' : List Entry} → Reachable q → Step q q' → Reachable q'
