-- ===== src/Engine/Locks/Woken.antt =====
-- The entries of a queue behind a lock that leaves.
use wasm_cloud_computing_ben.Prelude.{
  ℕ, ◌≡◌, ◌≢◌, refl, sym, ap₂, ◌==◌, false, not, if◌then◌else◌, ◌&&◌, List, ◌∷◌, ◌++◌, All,
  Bool-cases, inl, inr, arith,
}
use wasm_cloud_computing_ben.Engine.{store_word}
use wasm_cloud_computing_ben.Engine.Locks.Chain.{All-front, All-behind}
use wasm_cloud_computing_ben.Engine.Locks.Fair.{wake, wake_if_reader}
use wasm_cloud_computing_ben.Engine.Locks.Queue.{entries, entries-waiting, entries-append}

-- The entries after the first of a list is woken.
pub view_woken :
    (class waiting : ℕ → ℕ) (z : ℕ) (zs : List ℕ)
    → All (λ y. y ≢ z) zs
    → entries class (store_word waiting z 0) (z ∷ zs) ≡ wake (entries class waiting (z ∷ zs))
unfolding entries wake store_word
view_woken class waiting z zs out =
    ap₂ (λ e es. e ∷ es) (ground arith) (entries-waiting class waiting z 0 zs out)

view_held :
    (class waiting : ℕ → ℕ) (z : ℕ) (zs : List ℕ)
    → waiting z ≡ 0
    → entries class waiting (z ∷ zs) ≡ wake (entries class waiting (z ∷ zs))
unfolding entries wake
view_held class waiting z zs held = rw held refl

view_reader :
    (class waiting : ℕ → ℕ) (z : ℕ) (zs : List ℕ)
    → class z ≡ 2
    → wake_if_reader (entries class waiting (z ∷ zs)) ≡ wake (entries class waiting (z ∷ zs))
unfolding entries wake wake_if_reader
view_reader class waiting z zs reads = rw reads refl

view_writer :
    (class waiting : ℕ → ℕ) (z : ℕ) (zs : List ℕ)
    → (class z == 2) ≡ false
    → wake_if_reader (entries class waiting (z ∷ zs)) ≡ entries class waiting (z ∷ zs)
unfolding entries wake_if_reader
view_writer class waiting z zs writes = rw writes refl

-- The head leaves: the one behind is woken if it waits.
pub view_of_next :
    (class waiting : ℕ → ℕ) (z : ℕ) (zs : List ℕ)
    → All (λ y. y ≢ z) zs
    → entries class (if not (waiting z == 0) then store_word waiting z 0 else waiting) (z ∷ zs)
      ≡ wake (entries class waiting (z ∷ zs))
view_of_next class waiting z zs out = elim (Bool-cases (waiting z == 0)) [
  | inl held ↦ rw held (view_held class waiting z zs (ground arith))
  | inr waits ↦ rw waits (view_woken class waiting z zs out)
]

-- Another leaves: the one behind is woken if it is a reader that waits.
pub view_of_reader :
    (class waiting : ℕ → ℕ) (z : ℕ) (ys zs : List ℕ)
    → All (λ y. y ≢ z) (ys ++ zs)
    → entries class
        (if not (waiting z == 0) && class z == 2 then store_word waiting z 0 else waiting)
        (ys ++ z ∷ zs)
      ≡ entries class waiting ys ++ wake_if_reader (entries class waiting (z ∷ zs))
view_of_reader class waiting z ys zs out = elim (Bool-cases (class z == 2)) [
  | inl reads ↦
      let reader = view_reader class waiting z zs (ground arith) in
      elim (Bool-cases (waiting z == 0)) [
        | inl held ↦
            rw (held, reader, sym (view_held class waiting z zs (ground arith)))
              (entries-append class waiting ys (z ∷ zs))
        | inr waits ↦
            rw
              (
                waits,
                reads,
                reader,
                entries-append class (store_word waiting z 0) ys (z ∷ zs),
                entries-waiting class waiting z 0 ys (All-front z ys zs out),
                view_woken class waiting z zs (All-behind z ys zs out),
              )
              refl
      ]
  | inr writes ↦ elim (Bool-cases (waiting z == 0)) [
    | inl held ↦
        rw (held, view_writer class waiting z zs writes) (entries-append class waiting ys (z ∷ zs))
    | inr waits ↦
        rw (waits, writes, view_writer class waiting z zs writes)
          (entries-append class waiting ys (z ∷ zs))
  ]
]
