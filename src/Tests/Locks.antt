-- ===== src/Tests/Locks.antt =====
-- Three nodes of locks from offset 1024 on.
use wasm_cloud_computing_ben.Prelude.{◌≡◌, refl, true, false, [], ◌∷◌, arith}
use wasm_cloud_computing_ben.Engine.{store_word}
use wasm_cloud_computing_ben.Engine.Fixlen.Freelist.{objects}
use wasm_cloud_computing_ben.Engine.Locks.{
  Locks, wg_init_locks, init_cells, db_tfqueue_wlock, db_tfqueue_wulock, db_tfqueue_rulock,
  enter_rlock, wg_start_write, enqueue, alloc_lock,
}
use wasm_cloud_computing_ben.Engine.Locks.Fair.{AllWait, wake, remove, add_writer, add_reader}
use wasm_cloud_computing_ben.Engine.Locks.Queue.{HasQueue, view, entries}
use wasm_cloud_computing_ben.Engine.Locks.Order.{db_tfqueue_wlock-HasQueue, enter_rlock-HasQueue}
use wasm_cloud_computing_ben.Engine.Locks.Release.{
  db_tfqueue_wulock-HasQueue, db_tfqueue_rulock-HasQueue,
}
use wasm_cloud_computing_ben.Engine.Locks.Start.{wg_init_locks-HasQueue}
use wasm_cloud_computing_ben.Engine.Locks.Refinement.{wg_start_write_together}
use wasm_cloud_computing_ben.Engine.Locks.Session.{Session, started, takes_write}
use wasm_cloud_computing_ben.Engine.Locks.Session.Exclusion.{Session-AllWait}

abbrev fresh : Locks
fresh = record {
  tail = 0;
  freelist = 0;
  storage = 1024;
  max_nodes = 3;
  next_cell = λ i. 0;
  class = λ i. 0;
  waiting = λ i. 0;
  next = λ i. 0;
  prev = λ i. 0;
}

abbrev start : Locks
start = (wg_init_locks true fresh).1

start-HasQueue : HasQueue start [] (1024 ∷ 1152 ∷ 1280 ∷ [])
unfolding objects
start-HasQueue = (wg_init_locks-HasQueue fresh 2 (omega arith) refl).1

abbrev one_writer : Locks
one_writer = (db_tfqueue_wlock true start).1

one_writer-HasQueue : HasQueue one_writer (1024 ∷ []) (1152 ∷ 1280 ∷ [])
one_writer-HasQueue = (db_tfqueue_wlock-HasQueue start 1024 [] (1152 ∷ 1280 ∷ []) start-HasQueue).1

abbrev both : Locks
both = (enter_rlock one_writer).1

both-HasQueue : HasQueue both (1024 ∷ 1152 ∷ []) (1280 ∷ [])
both-HasQueue = (enter_rlock-HasQueue one_writer 1152 (1024 ∷ []) (1280 ∷ []) one_writer-HasQueue).1

db_tfqueue_wulock-HasQueue_example :
    ((db_tfqueue_wulock true both 1024).0 ≡ 1)
    × HasQueue (db_tfqueue_wulock true both 1024).1 (1152 ∷ []) (1024 ∷ 1280 ∷ [])
    × (view (db_tfqueue_wulock true both 1024).1 (1152 ∷ []) ≡ wake (view both (1152 ∷ [])))
db_tfqueue_wulock-HasQueue_example =
    db_tfqueue_wulock-HasQueue both 1024 (1152 ∷ []) (1280 ∷ []) both-HasQueue

db_tfqueue_rulock-HasQueue_example :
    ((db_tfqueue_rulock true both 1152).0 ≡ 1)
    × HasQueue (db_tfqueue_rulock true both 1152).1 (1024 ∷ []) (1152 ∷ 1280 ∷ [])
    × (view (db_tfqueue_rulock true both 1152).1 (1024 ∷ [])
        ≡ remove (view both (1024 ∷ [])) (view both []))
db_tfqueue_rulock-HasQueue_example =
    db_tfqueue_rulock-HasQueue both 1152 (1024 ∷ []) [] (1280 ∷ []) both-HasQueue

wg_start_write_together_example :
    ((wg_start_write true start).0 ≡ 1024)
    × ((wg_start_write true (wg_start_write true start).1).0 ≡ 1152)
    × (view (wg_start_write true (wg_start_write true start).1).1 (1024 ∷ 1152 ∷ [])
        ≡ (false, false) ∷ (false, true) ∷ [])
wg_start_write_together_example = wg_start_write_together fresh 1 (omega arith) refl

two_writers : Session (db_tfqueue_wlock true one_writer).1 (1024 ∷ 1152 ∷ []) (1280 ∷ [])
unfolding objects
two_writers =
    takes_write one_writer 1152 (1024 ∷ []) (1280 ∷ [])
      (takes_write start 1024 [] (1152 ∷ 1280 ∷ []) (started fresh 2 (omega arith) refl))

Session-AllWait_example :
    (view (db_tfqueue_wlock true one_writer).1 [] ≡ [])
    × AllWait (view (db_tfqueue_wlock true one_writer).1 (1152 ∷ []))
unfolding db_tfqueue_wlock enqueue alloc_lock wg_init_locks init_cells store_word entries
Session-AllWait_example =
    Session-AllWait (db_tfqueue_wlock true one_writer).1 1024 [] (1152 ∷ []) (1280 ∷ []) two_writers
      refl

db_tfqueue_wlock-HasQueue_example :
    ((db_tfqueue_wlock true start).0 ≡ 1024)
    × HasQueue (db_tfqueue_wlock true start).1 (1024 ∷ []) (1152 ∷ 1280 ∷ [])
    × (view (db_tfqueue_wlock true start).1 (1024 ∷ []) ≡ add_writer (view start []))
db_tfqueue_wlock-HasQueue_example =
    db_tfqueue_wlock-HasQueue start 1024 [] (1152 ∷ 1280 ∷ []) start-HasQueue

enter_rlock-HasQueue_example :
    ((enter_rlock one_writer).0 ≡ 1152)
    × HasQueue (enter_rlock one_writer).1 (1024 ∷ 1152 ∷ []) (1280 ∷ [])
    × (view (enter_rlock one_writer).1 (1024 ∷ 1152 ∷ [])
        ≡ add_reader (view one_writer (1024 ∷ [])))
enter_rlock-HasQueue_example =
    enter_rlock-HasQueue one_writer 1152 (1024 ∷ []) (1280 ∷ []) one_writer-HasQueue
