-- ===== src/Engine/Locks/Session.antt =====
-- Threads that share the queue of locks of dblock.c and respect `waiting`, as a Linux build makes them: each
-- releases a lock, or wakes the reader behind it, only while it holds the lock.
pub mod Exclusion
use wasm_cloud_computing_ben.Prelude.{
  ℕ, suc, ◌<◌, ◌≡◌, ◌≢◌, refl, sym, ap, ◌∙◌, ◌==◌, Bool, true, false, not, ◌&&◌, if◌then◌else◌,
  List, [], ◌∷◌, ◌++◌, All, Bool-cases, inl, inr, arith,
}
use wasm_cloud_computing_ben.Engine.{store_word}
use wasm_cloud_computing_ben.Engine.Fixlen.Freelist.{objects}
use wasm_cloud_computing_ben.Engine.Locks.{
  Locks, wg_init_locks, db_tfqueue_wlock, db_tfqueue_wulock, db_tfqueue_rulock, enter_rlock,
  wake_reader,
}
use wasm_cloud_computing_ben.Engine.Locks.Chain.{first, IsChain}
use wasm_cloud_computing_ben.Engine.Locks.Fair.{
  Step, Entry, reader_wakes, Reachable, none_yet, after, AllWait, wake_if_reader,
}
use wasm_cloud_computing_ben.Engine.Locks.Fair.Exclusion.{Reachable-AllWait}
use wasm_cloud_computing_ben.Engine.Locks.Queue.{HasQueue, entries, entries-append, view}
use wasm_cloud_computing_ben.Engine.Locks.Leave.{chain_at}
use wasm_cloud_computing_ben.Engine.Locks.Woken.{view_of_reader}
use wasm_cloud_computing_ben.Engine.Locks.Order.{db_tfqueue_wlock-HasQueue, enter_rlock-HasQueue}
use wasm_cloud_computing_ben.Engine.Locks.Release.{
  db_tfqueue_wulock-HasQueue, db_tfqueue_rulock-HasQueue,
}
use wasm_cloud_computing_ben.Engine.Locks.Start.{wg_init_locks-HasQueue}
use wasm_cloud_computing_ben.Engine.Locks.Refinement.{
  taken-Step, db_tfqueue_wulock-Step, db_tfqueue_rulock-Step,
}

-- A writer, and a reader, that holds the lock at a node.
abbrev pub Writes : Locks → ℕ → Type 0
Writes l x = view l (x ∷ []) ≡ (false, false) ∷ []

abbrev pub Reads : Locks → ℕ → Type 0
Reads l x = view l (x ∷ []) ≡ (true, false) ∷ []

-- The locks, the queue and the free nodes after a sequence of calls.
pub data Session : Locks → List ℕ → List ℕ → Type 0 where
  started :
      (l : Locks) (n : ℕ)
      → 0 < l.storage
      → l.max_nodes ≡ suc n
      → Session (wg_init_locks true l).1 [] (objects (suc n) 128 l.storage)
  takes_write :
      (l : Locks) (x : ℕ) (xs fs : List ℕ)
      → Session l xs (x ∷ fs)
      → Session (db_tfqueue_wlock true l).1 (xs ++ x ∷ []) fs
  takes_read :
      (l : Locks) (x : ℕ) (xs fs : List ℕ)
      → Session l xs (x ∷ fs)
      → Session (enter_rlock l).1 (xs ++ x ∷ []) fs
  wakes :
      (l : Locks) (x : ℕ) (ys zs fs : List ℕ)
      → Session l (ys ++ x ∷ zs) fs
      → Reads l x
      → Session (wake_reader l x) (ys ++ x ∷ zs) fs
  ends_write :
      (l : Locks) (x : ℕ) (ys zs fs : List ℕ)
      → Session l (ys ++ x ∷ zs) fs
      → Writes l x
      → Session (db_tfqueue_wulock true l x).1 (ys ++ zs) (x ∷ fs)
  ends_read :
      (l : Locks) (x : ℕ) (ys zs fs : List ℕ)
      → Session l (ys ++ x ∷ zs) fs
      → Reads l x
      → Session (db_tfqueue_rulock true l x).1 (ys ++ zs) (x ∷ fs)
