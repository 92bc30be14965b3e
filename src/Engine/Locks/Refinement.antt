-- ===== src/Engine/Locks/Refinement.antt =====
-- The queue of locks does the steps that `Fair` allows, from its start on; and what is missing where the
-- program is compiled for WebAssembly.
use wasm_cloud_computing_ben.Prelude.{
  ℕ, suc, ◌+◌, ◌<◌, ◌≡◌, ap, ◌∙◌, true, false, List, [], ◌∷◌, ◌++◌,
}
use wasm_cloud_computing_ben.Engine.Fixlen.Freelist.{objects}
use wasm_cloud_computing_ben.Engine.Locks.{
  Locks, wg_init_locks, wg_start_write, db_tfqueue_wlock, db_tfqueue_wulock, db_tfqueue_rulock,
  enter_rlock,
}
use wasm_cloud_computing_ben.Engine.Locks.Chain.{first}
use wasm_cloud_computing_ben.Engine.Locks.Fair.{
  add_writer, is_some, Step, writer_comes, reader_comes, writer_leaves, reader_leaves,
}
use wasm_cloud_computing_ben.Engine.Locks.Queue.{HasQueue, entries, view, entries-append}
use wasm_cloud_computing_ben.Engine.Locks.Order.{db_tfqueue_wlock-HasQueue, enter_rlock-HasQueue}
use wasm_cloud_computing_ben.Engine.Locks.Start.{wg_init_locks-HasQueue}
use wasm_cloud_computing_ben.Engine.Locks.Release.{
  db_tfqueue_wulock-HasQueue, db_tfqueue_rulock-HasQueue,
}

-- What a writer and a reader that come do is a step of `Fair`.
pub taken-Step :
    (l : Locks) (x : ℕ) (xs fs : List ℕ)
    → HasQueue l xs (x ∷ fs)
    → Step (view l xs) (view (db_tfqueue_wlock true l).1 (xs ++ x ∷ []))
      × Step (view l xs) (view (enter_rlock l).1 (xs ++ x ∷ []))
taken-Step l x xs fs queue =
    let (_, _, writer) = db_tfqueue_wlock-HasQueue l x xs fs queue in
    let (_, _, reader) = enter_rlock-HasQueue l x xs fs queue in
    (rw writer writer_comes, rw reader reader_comes)

-- A writer that holds its lock and leaves does a step of `Fair`.
pub db_tfqueue_wulock-Step :
    (l : Locks) (x : ℕ) (zs fs : List ℕ)
    → HasQueue l (x ∷ zs) fs
    → view l (x ∷ []) ≡ (false, false) ∷ []
    → Step (view l (x ∷ zs)) (view (db_tfqueue_wulock true l x).1 zs)
db_tfqueue_wulock-Step l x zs fs queue holds =
    let (_, _, left) = db_tfqueue_wulock-HasQueue l x zs fs queue in
    rw (left, entries-append l.class l.waiting (x ∷ []) zs, holds) writer_leaves

-- A reader that holds its lock and leaves does a step of `Fair`.
pub db_tfqueue_rulock-Step :
    (l : Locks) (x : ℕ) (ys zs fs : List ℕ)
    → HasQueue l (ys ++ x ∷ zs) fs
    → view l (x ∷ []) ≡ (true, false) ∷ []
    → Step (view l (ys ++ x ∷ zs)) (view (db_tfqueue_rulock true l x).1 (ys ++ zs))
db_tfqueue_rulock-Step l x ys zs fs queue holds =
    let (_, _, left) = db_tfqueue_rulock-HasQueue l x ys zs fs queue in
    let entry : view l (x ∷ zs) ≡ (true, false) ∷ view l zs =
      entries-append l.class l.waiting (x ∷ []) zs ∙ ap (λ e. e ++ view l zs) holds in
    rw (left, entries-append l.class l.waiting ys (x ∷ zs), entry)
      (reader_leaves (view l ys) (view l zs))

-- From the start, with two nodes at least, two writers that come get a lock each: the second does so while
-- the first holds its lock, and its entry still waits.
pub wg_start_write_together :
    (l : Locks) (n : ℕ)
    → 0 < l.storage
    → l.max_nodes ≡ suc (suc n)
    → ((wg_start_write true (wg_init_locks true l).1).0 ≡ l.storage)
      × ((wg_start_write true (wg_start_write true (wg_init_locks true l).1).1).0 ≡ l.storage + 128)
      × (view
            (wg_start_write true (wg_start_write true (wg_init_locks true l).1).1).1
            (l.storage ∷ (l.storage + 128) ∷ [])
          ≡ (false, false) ∷ (false, true) ∷ [])
unfolding wg_start_write objects add_writer is_some entries
wg_start_write_together l n some_storage nodes =
    let start = (wg_init_locks true l).1 in
    let (_, empty) = wg_init_locks-HasQueue l (suc n) some_storage nodes in
    let free = objects n 128 (l.storage + 128 + 128) in
    let (first, one, held) =
      db_tfqueue_wlock-HasQueue start l.storage [] ((l.storage + 128) ∷ free) empty in
    let (second, two, both) =
      db_tfqueue_wlock-HasQueue (db_tfqueue_wlock true start).1 (l.storage + 128) (l.storage ∷ [])
        free one in
    (first, second, both ∙ ap add_writer held)
