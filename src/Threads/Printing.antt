-- ===== src/Threads/Printing.antt =====
-- What the threads have printed.
use wasm_cloud_computing_ben.Prelude.{ℕ, ◌+◌, ◌<◌, ◌≤◌, ◌≡◌, true, if◌then◌else◌, ltb}
use wasm_cloud_computing_ben.Threads.{State, count}

-- Every call that was made failed, or its thread sleeps or has printed once; the joined ones neither failed
-- nor sleep; and `main` has only ended when all were joined.
abbrev IsFair : ℕ → State → Type 0
IsFair n s =
    ((v : ℕ)
      → count v s.output + count v s.sleeping + count v s.failed
        ≡ (if ltb v s.created then 1 else 0))
    × ((v : ℕ) → v < s.joined → count v s.sleeping + count v s.failed ≡ 0)
    × (s.joined ≤ s.created)
    × (s.created ≤ n)
    × (s.ended ≡ true → s.joined ≡ n)
