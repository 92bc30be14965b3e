-- ===== src/Engine/Locks/Links.antt =====
-- The fields of a queue of locks after a lock was taken out of it.
use wasm_cloud_computing_ben.Prelude.{ℕ, ◌≡◌, ◌==◌, not, if◌then◌else◌, ◌&&◌, ◌||◌, arith}
use wasm_cloud_computing_ben.Engine.{store_word}
use wasm_cloud_computing_ben.Engine.Locks.{Locks, link_prev, link_next, pass_on}

-- The fields after both links.
pub linked-next :
    (l : Locks) (x : ℕ)
    → (link_next (link_prev l x) x).next
      ≡ (if l.prev x == 0 then l.next else store_word l.next (l.prev x) (l.next x))
unfolding link_next link_prev
linked-next l x = ground arith

pub linked-prev :
    (l : Locks) (x : ℕ)
    → (link_next (link_prev l x) x).prev
      ≡ (if l.next x == 0 then l.prev else store_word l.prev (l.next x) (l.prev x))
unfolding link_next link_prev store_word
linked-prev l x = ground arith

pub linked-tail :
    (l : Locks) (x : ℕ)
    → (link_next (link_prev l x) x).tail
      ≡ (if l.next x == 0 then if l.tail == x then l.prev x else l.tail else l.tail)
unfolding link_next link_prev store_word
linked-tail l x = ground arith

pub linked_rest :
    (l : Locks) (x : ℕ)
    → ((link_next (link_prev l x) x).next_cell ≡ l.next_cell)
      × ((link_next (link_prev l x) x).freelist ≡ l.freelist)
      × ((link_next (link_prev l x) x).class ≡ l.class)
unfolding link_next link_prev
linked_rest l x = ground arith

-- Whether the one behind is woken.
pub linked-waiting :
    (l : Locks) (x : ℕ)
    → (link_next (link_prev l x) x).waiting ≡ (
        if not (l.next x == 0)
          && not (l.waiting (l.next x) == 0)
          && (l.prev x == 0 || l.class (l.next x) == 2)
        then store_word l.waiting (l.next x) 0
        else l.waiting)
unfolding link_next link_prev store_word
linked-waiting l x = ground arith

pub passed :
    (l : Locks) (x : ℕ)
    → l.prev x ≡ 0
    → ((pass_on l x).next
        ≡ (if l.prev x == 0 then l.next else store_word l.next (l.prev x) (l.next x)))
      × ((pass_on l x).prev
          ≡ (if l.next x == 0 then l.prev else store_word l.prev (l.next x) (l.prev x)))
      × ((pass_on l x).tail
          ≡ (if l.next x == 0 then if l.tail == x then l.prev x else l.tail else l.tail))
      × ((pass_on l x).next_cell ≡ l.next_cell)
      × ((pass_on l x).freelist ≡ l.freelist)
      × ((pass_on l x).class ≡ l.class)
      × ((pass_on l x).waiting
          ≡ (if l.next x == 0 then l.waiting else store_word l.waiting (l.next x) 0))
unfolding pass_on
passed l x head = ground arith
