-- ===== src/Engine/Locks.antt =====
-- The queue of locks on the whole database, workloads/no_sql_db/wasm-src/dblock.c with `LOCK_PROTO`
-- 3. Each part between `lock_queue` and `unlock_queue` is one step. `__linux__` is not defined where
-- the program is compiled for WebAssembly: a lock that has to wait is returned at once, and there is
-- nobody to wake. The argument `is_db` is what `dbcheck` answers.
pub mod Chain
pub mod Queue
pub mod Fair
pub mod Order
pub mod Leave
pub mod Woken
pub mod Links
pub mod Release
pub mod Start
pub mod Refinement
pub mod Session
use wasm_cloud_computing_ben.Prelude.{
  ℕ, zero, suc, ◌+◌, ◌*◌, Bool, if◌then◌else◌, ltb, ◌==◌, ◌&&◌, ◌||◌, not,
}
use wasm_cloud_computing_ben.Prelude.Int.{ℤ, pos, neg}
use wasm_cloud_computing_ben.Engine.{store_word}

abbrev pub lockq_read : ℕ
lockq_read = 2

abbrev pub lockq_write : ℕ
lockq_write = 4

abbrev pub syn_var_padding : ℕ
syn_var_padding = 128

-- The header's `locks`, and the fields of the nodes, each a function of a node's offset.
pub record Locks : Type 0 where
  pub tail : ℕ
  pub freelist : ℕ
  pub storage : ℕ
  pub max_nodes : ℕ
  pub next_cell : ℕ → ℕ
  pub class : ℕ → ℕ
  pub waiting : ℕ → ℕ
  pub next : ℕ → ℕ
  pub prev : ℕ → ℕ

-- The loop of `wg_init_locks` from offset `i` on, on fuel, up to the end of the storage; the last node's
-- `next_cell` is set behind it.
unfoldable pub init_cells : ℕ → ℕ → ℕ → (ℕ → ℕ) → ℕ → ℕ → ℕ
init_cells zero chunk_wall tmp next_cell i = store_word next_cell tmp 0
init_cells (suc fuel) chunk_wall tmp next_cell i =
    let step = i + syn_var_padding in
    let rest = init_cells fuel chunk_wall i (store_word next_cell i step) step in
    if ltb i chunk_wall then rest else store_word next_cell tmp 0

-- There is at least one node. Here `is_db` is whether `dbcheck` or `dbcheckinit` accepts the database.
unfoldable pub wg_init_locks : Bool → Locks → ℤ × Locks
wg_init_locks is_db l =
    let chunk_wall = l.storage + l.max_nodes * syn_var_padding in
    if not is_db then (neg 1, l) else (
      pos 0,
      record l {
        next_cell = init_cells l.max_nodes chunk_wall 0 l.next_cell l.storage;
        freelist = l.storage;
        tail = 0;
      },
    )

unfoldable pub alloc_lock : Locks → ℕ × Locks
alloc_lock l =
    if l.freelist == 0 then (0, l) else (l.freelist, record l { freelist = l.next_cell l.freelist })

unfoldable pub free_lock : Locks → ℕ → Locks
free_lock l node = record l { next_cell = store_word l.next_cell node l.freelist; freelist = node }

-- A node of a class becomes the last of the queue, and waits or not.
unfoldable pub enqueue : Locks → ℕ → ℕ → ℕ → Locks
enqueue l lock class waiting = record l {
  tail = lock;
  class = store_word l.class lock class;
  waiting = store_word l.waiting lock waiting;
  next =
      if l.tail == 0
      then store_word l.next lock 0
      else store_word (store_word l.next lock 0) l.tail lock;
  prev = store_word l.prev lock l.tail;
}

-- 0: no lock.
unfoldable pub db_tfqueue_wlock : Bool → Locks → ℕ × Locks
db_tfqueue_wlock is_db l =
    let (lock, l') = alloc_lock l in
    let waiting = if l'.tail == 0 then 0 else 1 in
    if not is_db
    then (0, l)
    else if lock == 0
    then (0, l')
    else (lock, enqueue l' lock lockq_write waiting)

-- The node behind is the new head and does not wait any longer.
unfoldable pub pass_on : Locks → ℕ → Locks
pass_on l lock =
    if not (l.next lock == 0)
    then record l {
      waiting = store_word l.waiting (l.next lock) 0;
      prev = store_word l.prev (l.next lock) 0;
    }
    else if l.tail == lock
    then record l { tail = 0 }
    else l

unfoldable pub db_tfqueue_wulock : Bool → Locks → ℕ → ℕ × Locks
db_tfqueue_wulock is_db l lock = if is_db then (1, free_lock (pass_on l lock) lock) else (0, l)

-- Whether a reader behind the node has to wait.
unfoldable pub is_read_delayed : Locks → ℕ → Bool
is_read_delayed l prev = not (prev == 0) && not (l.class prev == lockq_read && l.waiting prev == 0)

-- The first part of `db_tfqueue_rlock`.
unfoldable pub enter_rlock : Locks → ℕ × Locks
enter_rlock l =
    let (lock, l') = alloc_lock l in
    let waiting = if is_read_delayed l' l'.tail then 1 else 0 in
    if lock == 0 then (0, l') else (lock, enqueue l' lock lockq_read waiting)

-- Its second part, of a reader that had to wait: a reader behind it does not wait any longer.
unfoldable pub wake_reader : Locks → ℕ → Locks
wake_reader l lock =
    let nextp = l.next lock in
    if not (nextp == 0) && l.class nextp == lockq_read && not (l.waiting nextp == 0)
    then record l { waiting = store_word l.waiting nextp 0 }
    else l

-- The other threads' steps stand between the first part, the test of `waiting`, and the second part.
unfoldable pub db_tfqueue_rlock : Bool → (ℕ → Locks → Locks) → Locks → ℕ × Locks
db_tfqueue_rlock is_db others l =
    let (lock, entered) = enter_rlock l in
    let l' = others 0 entered in
    if not is_db
    then (0, l)
    else if lock == 0
    then (0, entered)
    else if l'.waiting lock == 0
    then (lock, l')
    else (lock, wake_reader (others 1 l') lock)

-- `lockp->prev` is linked to the node behind.
unfoldable pub link_prev : Locks → ℕ → Locks
link_prev l lock =
    if l.prev lock == 0
    then l
    else record l { next = store_word l.next (l.prev lock) (l.next lock) }

-- The node behind is linked to the one before, and woken if it is the head or a reader.
unfoldable pub link_next : Locks → ℕ → Locks
link_next l lock =
    let nextp = l.next lock in
    let before = l.prev lock in
    let linked = record l { prev = store_word l.prev nextp before } in
    let woken = record linked { waiting = store_word l.waiting nextp 0 } in
    if not (nextp == 0)
    then if not (l.waiting nextp == 0) && (before == 0 || l.class nextp == lockq_read)
      then woken
      else linked
    else if l.tail == lock
    then record l { tail = before }
    else l

unfoldable pub db_tfqueue_rulock : Bool → Locks → ℕ → ℕ × Locks
db_tfqueue_rulock is_db l lock =
    if is_db then (1, free_lock (link_next (link_prev l lock) lock) lock) else (0, l)

unfoldable pub wg_start_write : Bool → Locks → ℕ × Locks
wg_start_write is_db l = db_tfqueue_wlock is_db l

unfoldable pub wg_end_write : Bool → Locks → ℕ → ℕ × Locks
wg_end_write is_db l lock = db_tfqueue_wulock is_db l lock

unfoldable pub wg_start_read : Bool → (ℕ → Locks → Locks) → Locks → ℕ × Locks
wg_start_read is_db others l = db_tfqueue_rlock is_db others l

unfoldable pub wg_end_read : Bool → Locks → ℕ → ℕ × Locks
wg_end_read is_db l lock = db_tfqueue_rulock is_db l lock
