-- ===== src/Engine/Locks/Session/Exclusion.antt =====
-- Mutual exclusion among threads that respect `waiting`.
use wasm_cloud_computing_ben.Prelude.{
  ℕ, ◌≡◌, refl, sym, ap, ◌∙◌, ◌==◌, Bool, true, false, not, ◌&&◌, if◌then◌else◌, List, [], ◌∷◌,
  ◌++◌, arith,
}
use wasm_cloud_computing_ben.Engine.{store_word}
use wasm_cloud_computing_ben.Engine.Locks.{Locks, db_tfqueue_wulock, wake_reader}
use wasm_cloud_computing_ben.Engine.Locks.Chain.{first, IsChain}
use wasm_cloud_computing_ben.Engine.Locks.Fair.{
  reader_wakes, Reachable, none_yet, after, AllWait, wake_if_reader,
}
use wasm_cloud_computing_ben.Engine.Locks.Fair.Exclusion.{Reachable-AllWait}
use wasm_cloud_computing_ben.Engine.Locks.Queue.{HasQueue, entries, entries-append, view}
use wasm_cloud_computing_ben.Engine.Locks.Leave.{chain_at}
use wasm_cloud_computing_ben.Engine.Locks.Woken.{view_of_reader}
use wasm_cloud_computing_ben.Engine.Locks.Order.{db_tfqueue_wlock-HasQueue, enter_rlock-HasQueue}
use wasm_cloud_computing_ben.Engine.Locks.Release.{
  db_tfqueue_wulock-HasQueue, db_tfqueue_rulock-HasQueue,
}
use wasm_cloud_computing_ben.Engine.Locks.Start.{wg_init_locks-HasQueue}
use wasm_cloud_computing_ben.Engine.Locks.Refinement.{
  taken-Step, db_tfqueue_wulock-Step, db_tfqueue_rulock-Step,
}
use wasm_cloud_computing_ben.Engine.Locks.Session.{
  Writes, Reads, Session, started, takes_write, takes_read, wakes, ends_write, ends_read,
}

woken_fields :
    (l : Locks) (x : ℕ)
    → ((wake_reader l x).next ≡ l.next)
      × ((wake_reader l x).prev ≡ l.prev)
      × ((wake_reader l x).tail ≡ l.tail)
      × ((wake_reader l x).next_cell ≡ l.next_cell)
      × ((wake_reader l x).freelist ≡ l.freelist)
      × ((wake_reader l x).class ≡ l.class)
unfolding wake_reader
woken_fields l x = ground arith

woken_waiting :
    (l : Locks) (x : ℕ)
    → (wake_reader l x).waiting ≡ (
        if not (l.next x == 0) && (not (l.waiting (l.next x) == 0) && l.class (l.next x) == 2)
        then store_word l.waiting (l.next x) 0
        else l.waiting)
unfolding wake_reader
woken_waiting l x = ground arith

split_view :
    (l : Locks) (x : ℕ) (ys zs : List ℕ) (reads waits : Bool)
    → view l (x ∷ []) ≡ (reads, waits) ∷ []
    → view l (ys ++ x ∷ zs) ≡ view l ys ++ (reads, waits) ∷ view l zs
split_view l x ys zs reads waits held =
    entries-append l.class l.waiting ys (x ∷ zs)
    ∙ ap (λ es. view l ys ++ es)
        (entries-append l.class l.waiting (x ∷ []) zs ∙ ap (λ e. e ++ view l zs) held)

append_one {ℓ} : {A : Type ℓ} (x : A) (ys zs : List A) → (ys ++ x ∷ []) ++ zs ≡ ys ++ x ∷ zs
append_one x [] zs = refl
append_one x (y ∷ ys) zs = ap (λ es. y ∷ es) (append_one x ys zs)

wake_reader-view :
    (l : Locks) (x : ℕ) (ys zs : List ℕ)
    → IsChain l.next l.prev 0 (ys ++ x ∷ zs)
    → Reads l x
    → view (wake_reader l x) (ys ++ x ∷ zs)
      ≡ view l ys ++ (true, false) ∷ wake_if_reader (view l zs)
unfolding first wake_if_reader entries
wake_reader-view l x ys [] chain reads =
    let (node, back, forth, out) = chain_at l.next l.prev 0 x ys [] chain in
    let (next, prev, tail, cells, top, class) = woken_fields l x in
    rw (class, woken_waiting l x, forth) (split_view l x ys [] true false reads)
wake_reader-view l x ys (z ∷ zs) chain reads =
    let (_, _, forth, _) = chain_at l.next l.prev 0 x ys (z ∷ zs) chain in
    let (node, _, _, out) =
      chain_at l.next l.prev 0 z (ys ++ x ∷ []) zs (rw (append_one x ys (z ∷ zs)) chain) in
    let (next, prev, tail, cells, top, class) = woken_fields l x in
    let some_next : (z == 0) ≡ false = ground arith in
    let woken = view_of_reader l.class l.waiting z (ys ++ x ∷ []) zs out in
    rw (class, woken_waiting l x, forth, some_next, sym (append_one x ys (z ∷ zs)))
      (woken
        ∙ ap (λ es. es ++ wake_if_reader (view l (z ∷ zs))) (split_view l x ys [] true false reads)
        ∙ append_one (true, false) (view l ys) (wake_if_reader (view l (z ∷ zs))))

wake_reader-HasQueue :
    (l : Locks) (x : ℕ) (xs fs : List ℕ) → HasQueue l xs fs → HasQueue (wake_reader l x) xs fs
wake_reader-HasQueue l x xs fs (chain, end, free, apart) =
    let (next, prev, tail, cells, top, class) = woken_fields l x in
    (rw (next, prev) chain, rw tail end, rw (cells, top) free, apart)

ends_first :
    (l : Locks) (x : ℕ) (ys zs fs : List ℕ)
    → HasQueue l (ys ++ x ∷ zs) fs
    → Writes l x
    → Reachable (view l (ys ++ x ∷ zs))
    → view l ys ≡ []
    → HasQueue (db_tfqueue_wulock true l x).1 (ys ++ zs) (x ∷ fs)
      × Reachable (view (db_tfqueue_wulock true l x).1 (ys ++ zs))
unfolding entries
ends_first l x [] zs fs queue writes reached head = (
  (db_tfqueue_wulock-HasQueue l x zs fs queue).1,
  after reached (db_tfqueue_wulock-Step l x zs fs queue writes),
)
ends_first l x (y ∷ ys) zs fs queue writes reached head = cc

-- The queue of a session is well formed, and it is one that the steps of `Fair` lead to.
Session-Reachable :
    {l : Locks} {xs fs : List ℕ} → Session l xs fs → HasQueue l xs fs × Reachable (view l xs)
unfolding entries
Session-Reachable (started l n some_storage nodes) =
    ((wg_init_locks-HasQueue l n some_storage nodes).1, none_yet)
Session-Reachable (takes_write l x xs fs session) =
    let (queue, reached) = Session-Reachable session in
    ((db_tfqueue_wlock-HasQueue l x xs fs queue).1, after reached (taken-Step l x xs fs queue).0)
Session-Reachable (takes_read l x xs fs session) =
    let (queue, reached) = Session-Reachable session in
    ((enter_rlock-HasQueue l x xs fs queue).1, after reached (taken-Step l x xs fs queue).1)
Session-Reachable (wakes l x ys zs fs session reads) =
    let (queue, reached) = Session-Reachable session in
    let before : Reachable (view l ys ++ (true, false) ∷ view l zs) =
      rw (sym (split_view l x ys zs true false reads)) reached in
    (
      wake_reader-HasQueue l x (ys ++ x ∷ zs) fs queue,
      rw (wake_reader-view l x ys zs queue.0 reads)
          (after before (reader_wakes (view l ys) (view l zs))),
    )
Session-Reachable (ends_write l x ys zs fs session writes) =
    let (queue, reached) = Session-Reachable session in
    let before : Reachable (view l ys ++ (false, false) ∷ view l zs) =
      rw (sym (split_view l x ys zs false false writes)) reached in
    ends_first l x ys zs fs queue writes reached
      (Reachable-AllWait (view l ys) (view l zs) before).0
Session-Reachable (ends_read l x ys zs fs session reads) =
    let (queue, reached) = Session-Reachable session in
    (
      (db_tfqueue_rulock-HasQueue l x ys zs fs queue).1,
      after reached (db_tfqueue_rulock-Step l x ys zs fs queue reads),
    )

-- Threads take locks in any order from the start of the queue on, and release a lock, or wake the reader
-- behind it, only while they hold it. In every state that they reach, a writer that holds its lock stands
-- first in the queue and all others wait: nobody else holds a lock.
pub Session-AllWait :
    (l : Locks) (x : ℕ) (ys zs fs : List ℕ)
    → Session l (ys ++ x ∷ zs) fs
    → Writes l x
    → (view l ys ≡ []) × AllWait (view l zs)
Session-AllWait l x ys zs fs session writes =
    let (queue, reached) = Session-Reachable session in
    let before : Reachable (view l ys ++ (false, false) ∷ view l zs) =
      rw (sym (split_view l x ys zs false false writes)) reached in
    Reachable-AllWait (view l ys) (view l zs) before
