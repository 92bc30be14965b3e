-- ===== src/Engine/Locks/Fair/Exclusion.antt =====
-- Mutual exclusion in the queue of locks.
use wasm_cloud_computing_ben.Prelude.{◌≡◌, refl, Bool, true, false, List, [], ◌∷◌, ◌++◌, arith}
use wasm_cloud_computing_ben.Engine.Locks.Fair.{
  Entry, is_delayed, is_some, add_writer, add_reader, wake, wake_if_reader, remove, Step,
  writer_comes, reader_comes, writer_leaves, reader_wakes, reader_leaves, AllWait, IsShared,
  IsExclusive, Reachable, none_yet, after,
}

AllWait-append : (q : List Entry) (e : Entry) → AllWait q → e.1 ≡ true → AllWait (q ++ e ∷ [])
AllWait-append [] e waits last = (last, tt)
AllWait-append (d ∷ q) e (here, waits) last = (here, AllWait-append q e waits last)

is_delayed-AllWait : (e : Entry) (q : List Entry) → AllWait (e ∷ q) → is_delayed (e ∷ q) ≡ true
unfolding is_delayed
is_delayed-AllWait (true, true) [] waits = refl
is_delayed-AllWait (false, true) [] waits = refl
is_delayed-AllWait (reads, false) q (here, waits) = absurd (ground arith)
is_delayed-AllWait (reads, true) (d ∷ q) (here, waits) = is_delayed-AllWait d q waits

AllWait-IsShared : (q : List Entry) → AllWait q → IsShared q
unfolding IsShared
AllWait-IsShared [] waits = tt
AllWait-IsShared ((reads, true) ∷ q) (here, waits) = waits
AllWait-IsShared ((reads, false) ∷ q) (here, waits) = absurd (ground arith)

IsShared-add_writer : (q : List Entry) → IsShared q → IsShared (q ++ (false, true) ∷ [])
unfolding IsShared
IsShared-add_writer [] shared = tt
IsShared-add_writer ((true, false) ∷ q) shared = IsShared-add_writer q shared
IsShared-add_writer ((true, true) ∷ q) waits = AllWait-append q (false, true) waits refl
IsShared-add_writer ((false, true) ∷ q) waits = AllWait-append q (false, true) waits refl
IsShared-add_writer ((false, false) ∷ q) none_held = absurd none_held

reader_waits :
    (reads : Bool) (q : List Entry)
    → AllWait q
    → AllWait (q ++ (true, is_delayed ((reads, true) ∷ q)) ∷ [])
reader_waits reads q waits =
    AllWait-append q (true, is_delayed ((reads, true) ∷ q)) waits
      (is_delayed-AllWait (reads, true) q (refl, waits))

-- The reader that comes holds its lock if it comes behind one that does.
IsShared-add_reader :
    (q : List Entry) → IsShared q → IsShared (q ++ (true, is_delayed ((true, false) ∷ q)) ∷ [])
unfolding IsShared is_delayed
IsShared-add_reader [] shared = tt
IsShared-add_reader ((true, false) ∷ q) shared = IsShared-add_reader q shared
IsShared-add_reader ((false, false) ∷ q) none_held = absurd none_held
IsShared-add_reader ((true, true) ∷ q) waits = reader_waits true q waits
IsShared-add_reader ((false, true) ∷ q) waits = reader_waits false q waits

IsShared-wake_if_reader : (q : List Entry) → IsShared q → IsShared (wake_if_reader q)
unfolding IsShared wake_if_reader
IsShared-wake_if_reader [] shared = tt
IsShared-wake_if_reader ((true, false) ∷ q) shared = shared
IsShared-wake_if_reader ((true, true) ∷ q) waits = AllWait-IsShared q waits
IsShared-wake_if_reader ((false, true) ∷ q) waits = waits
IsShared-wake_if_reader ((false, false) ∷ q) none_held = absurd none_held

IsExclusive-wake : (q : List Entry) → IsShared q → IsExclusive (wake q)
unfolding IsShared IsExclusive wake
IsExclusive-wake [] shared = tt
IsExclusive-wake ((true, false) ∷ q) shared = shared
IsExclusive-wake ((true, true) ∷ q) waits = AllWait-IsShared q waits
IsExclusive-wake ((false, true) ∷ q) waits = waits
IsExclusive-wake ((false, false) ∷ q) none_held = absurd none_held

none_wait : (reads : Bool) (ys zs : List Entry) → AllWait (ys ++ (reads, false) ∷ zs) → ⊥
none_wait reads [] zs (here, waits) = ground arith
none_wait reads (y ∷ ys) zs (here, waits) = none_wait reads ys zs waits

-- Behind a reader that holds its lock.
IsShared-behind :
    (ys zs : List Entry)
    → IsShared (ys ++ (true, false) ∷ zs)
    → IsShared (ys ++ wake_if_reader zs) × IsShared (ys ++ (true, false) ∷ wake_if_reader zs)
unfolding IsShared
IsShared-behind [] zs shared =
    (IsShared-wake_if_reader zs shared, IsShared-wake_if_reader zs shared)
IsShared-behind ((true, false) ∷ ys) zs shared = IsShared-behind ys zs shared
IsShared-behind ((true, true) ∷ ys) zs waits = absurd (none_wait true ys zs waits)
IsShared-behind ((false, true) ∷ ys) zs waits = absurd (none_wait true ys zs waits)
IsShared-behind ((false, false) ∷ ys) zs none_held = absurd none_held

IsExclusive-add_writer : (q : List Entry) → IsExclusive q → IsExclusive (add_writer q)
unfolding IsExclusive add_writer is_some
IsExclusive-add_writer [] exclusive = tt
IsExclusive-add_writer ((true, false) ∷ q) shared = IsShared-add_writer q shared
IsExclusive-add_writer ((false, false) ∷ q) waits = AllWait-append q (false, true) waits refl
IsExclusive-add_writer ((reads, true) ∷ q) none_held = absurd none_held

IsExclusive-add_reader : (q : List Entry) → IsExclusive q → IsExclusive (add_reader q)
unfolding IsExclusive IsShared add_reader is_delayed
IsExclusive-add_reader [] exclusive = tt
IsExclusive-add_reader ((true, false) ∷ q) shared = IsShared-add_reader q shared
IsExclusive-add_reader ((false, false) ∷ []) waits = (refl, tt)
IsExclusive-add_reader ((false, false) ∷ e ∷ q) waits =
    AllWait-append (e ∷ q) (true, is_delayed (e ∷ q)) waits (is_delayed-AllWait e q waits)
IsExclusive-add_reader ((reads, true) ∷ q) none_held = absurd none_held

AllWait-IsExclusive : (q : List Entry) → AllWait q → IsExclusive (wake q)
AllWait-IsExclusive q waits = IsExclusive-wake q (AllWait-IsShared q waits)

writer_left : (q : List Entry) → IsExclusive ((false, false) ∷ q) → IsExclusive (wake q)
unfolding IsExclusive
writer_left q waits = AllWait-IsExclusive q waits

wakes_next :
    (ys zs : List Entry)
    → IsExclusive (ys ++ (true, false) ∷ zs)
    → IsExclusive (ys ++ (true, false) ∷ wake_if_reader zs) × IsExclusive (remove ys zs)
unfolding IsExclusive remove
wakes_next [] zs shared = (IsShared-wake_if_reader zs shared, IsExclusive-wake zs shared)
wakes_next ((true, false) ∷ ys) zs shared =
    let (left, woken) = IsShared-behind ys zs shared in (woken, left)
wakes_next ((false, false) ∷ ys) zs waits = absurd (none_wait true ys zs waits)
wakes_next ((reads, true) ∷ ys) zs none_held = absurd none_held

-- Each step keeps it that one writer alone holds a lock, or readers do, and that somebody does if there
-- is an entry.
Step-IsExclusive : {q q' : List Entry} → Step q q' → IsExclusive q → IsExclusive q'
Step-IsExclusive (writer_comes {q}) exclusive = IsExclusive-add_writer q exclusive
Step-IsExclusive (reader_comes {q}) exclusive = IsExclusive-add_reader q exclusive
Step-IsExclusive (writer_leaves {q}) exclusive = writer_left q exclusive
Step-IsExclusive (reader_wakes ys zs) exclusive = (wakes_next ys zs exclusive).0
Step-IsExclusive (reader_leaves ys zs) exclusive = (wakes_next ys zs exclusive).1

Reachable-IsExclusive : {q : List Entry} → Reachable q → IsExclusive q
unfolding IsExclusive
Reachable-IsExclusive none_yet = tt
Reachable-IsExclusive (after reached step) = Step-IsExclusive step (Reachable-IsExclusive reached)

no_writer : (ys zs : List Entry) → IsShared (ys ++ (false, false) ∷ zs) → ⊥
unfolding IsShared
no_writer [] zs shared = shared
no_writer ((false, false) ∷ ys) zs shared = shared
no_writer ((true, false) ∷ ys) zs shared = no_writer ys zs shared
no_writer ((true, true) ∷ ys) zs waits = none_wait false ys zs waits
no_writer ((false, true) ∷ ys) zs waits = none_wait false ys zs waits

writer_alone :
    (ys zs : List Entry) → IsExclusive (ys ++ (false, false) ∷ zs) → (ys ≡ []) × AllWait zs
unfolding IsExclusive
writer_alone [] zs waits = (refl, waits)
writer_alone ((false, false) ∷ ys) zs waits = absurd (none_wait false ys zs waits)
writer_alone ((true, false) ∷ ys) zs shared = absurd (no_writer ys zs shared)
writer_alone ((reads, true) ∷ ys) zs none_held = absurd none_held

-- In every queue that the steps lead to, a writer that holds its lock stands first, and all others wait.
pub Reachable-AllWait :
    (ys zs : List Entry) → Reachable (ys ++ (false, false) ∷ zs) → (ys ≡ []) × AllWait zs
Reachable-AllWait ys zs reached = writer_alone ys zs (Reachable-IsExclusive reached)
