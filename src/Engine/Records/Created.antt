-- ===== src/Engine/Records/Created.antt =====
-- New records and their fields.
use wasm_cloud_computing_ben.Prelude.{ℕ, ◌≤◌, ◌<◌, ◌≡◌, true}
use wasm_cloud_computing_ben.Prelude.Int.{pos}
use wasm_cloud_computing_ben.Engine.{State}
use wasm_cloud_computing_ben.Engine.Values.{wg_illegal}
use wasm_cloud_computing_ben.Engine.Records.{wg_get_record_len, wg_get_field}

-- A record at offset `r` with `length` fields, all of which are 0.
abbrev pub IsFresh : State → ℕ → ℕ → Type 0
IsFresh s r length =
    (wg_get_record_len true s r ≡ pos length)
    × ((f : ℕ) → f < length → wg_get_field true s r (pos f) ≡ 0)
    × ((f : ℕ) → length ≤ f → wg_get_field true s r (pos f) ≡ wg_illegal)
