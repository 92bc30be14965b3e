-- ===== src/Ml/ImageFile/Effects.antt =====
-- What `get_images` leaves open or allocated, on every path.
use wasm_cloud_computing_ben.Prelude.{
  ℕ, suc, ◌-◌, ◌≤◌, ◌≡◌, Bool, Option, none, some, List, [], ◌∷◌, arith,
}
use wasm_cloud_computing_ben.Ml.ImageFile.{
  Event, opened, closed, freed, allocated, message, Reply, null, overrun, images, read_images,
  check_header, get_images,
}

-- Streams opened and not closed, and blocks allocated and not freed. A close or a free too many
-- would be lost in a subtraction, so both are counted separately.
pub record Balance : Type 0 where
  pub opens : ℕ
  pub closes : ℕ
  pub allocations : ℕ
  pub frees : ℕ

abbrev count_event : Event → Balance → Balance
count_event opened b = record b { opens = suc b.opens }
count_event closed b = record b { closes = suc b.closes }
count_event freed b = record b { frees = suc b.frees }
count_event (allocated n) b = record b { allocations = suc b.allocations }
count_event (message m) b = b

abbrev pub balance : List Event → Balance
balance [] = record { opens = 0; closes = 0; allocations = 0; frees = 0 }
balance (e ∷ es) = count_event e (balance es)

-- One block is left exactly when images are returned.
abbrev pub Leaves : Reply → ℕ → Type 0
Leaves null n = n ≡ 0
Leaves overrun n = Unit
Leaves (images k is) n = n ≡ 1

abbrev pub IsOverrun : Reply → Type 0
IsOverrun overrun = Unit
IsOverrun _ = ⊥

abbrev pub IsClean : List Event × Reply → Type 0
IsClean (events, reply) =
    ((balance events).opens ≡ (balance events).closes)
    × ((balance events).frees ≤ (balance events).allocations)
    × Leaves reply ((balance events).allocations - (balance events).frees)

-- If it does not write out of bounds, `get_images` closes the file as often as it opened it, frees
-- no more blocks than it allocated, and keeps one exactly if it returns images.
pub get_images-IsClean :
    (malloc : ℕ → Bool) (file : Option (List ℕ))
    → ¬ IsOverrun (get_images malloc file).1
    → IsClean (get_images malloc file)
unfolding get_images check_header read_images
get_images-IsClean malloc none h = ground arith
get_images-IsClean malloc (some bs) h = ground arith
