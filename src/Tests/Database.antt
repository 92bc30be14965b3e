-- ===== src/Tests/Database.antt =====
-- The database server at concrete inputs.
use wasm_cloud_computing_ben.Prelude.{
  ℕ, suc, ◌≡◌, ◌≢◌, refl, true, false, none, some, [], ◌∷◌, arith, ◌⊎◌,
}
use wasm_cloud_computing_ben.Prelude.Int.{pos}
use wasm_cloud_computing_ben.Engine.{dbfetch, unmarked}
use wasm_cloud_computing_ben.Engine.Values.{
  fits_smallint, decode_smallint, isvar, issmallint, immediate_type, wg_decode_int,
  wg_get_encoded_type,
}
use wasm_cloud_computing_ben.Engine.Records.{
  wg_get_record_len, getusedobjectwantedgintsnr, wg_get_field, is_wrong_field, field_offset,
}
use wasm_cloud_computing_ben.Engine.Records.Atomic.{is_special_record}
use wasm_cloud_computing_ben.Server.{Answers, serve, blocked, crashed}
use wasm_cloud_computing_ben.Server.Address.{Ntop}
use wasm_cloud_computing_ben.NoSql.Work.{
  run1, count_loop, fill_db, fill_loop, write_records, store_int,
}
use wasm_cloud_computing_ben.NoSql.Work.Count.{run1_lem}
use wasm_cloud_computing_ben.NoSql.Engine.{engine_db}
use wasm_cloud_computing_ben.Tests.Query.{words, first, both-Follow, area_state}
use wasm_cloud_computing_ben.Tests.Compare.{whole_numbers}
use wasm_cloud_computing_ben.NoSql.Connection.{run, received, running, exited}
use wasm_cloud_computing_ben.NoSql.Connection.Loop.{run-goes_on}
use wasm_cloud_computing_ben.NoSql.Db.{Db}
use wasm_cloud_computing_ben.NoSql.Main.{main}
use wasm_cloud_computing_ben.NoSql.Main.Cleanup.{main_cleans_up, tally}
use wasm_cloud_computing_ben.Tests.MemoryDb.{Memory, memory}

abbrev three : Memory
three = record { cells = some 10 ∷ some 20 ∷ some 10 ∷ []; capacity = 100 }

count_three : run1 memory 10 three 10 ≡ some 2
unfolding run1 count_loop
count_three = refl

abbrev no_ntop : Ntop
no_ntop v6 addr = []

-- A server that cannot bind its socket.
abbrev unbound : Answers
unbound = record { socket = pos 3; setsockopt = true; bind = false; listen = true; accepts = [] }

unbound_ends : ((serve no_ntop unbound).2 ≢ blocked) × ((serve no_ntop unbound).2 ≢ crashed)
unfolding serve
unbound_ends = (λ e. cc, λ e. cc)

-- The database of Tests/Query has two records, whose fields hold 30.
run1_lem_example : run1 (engine_db whole_numbers (λ s. none) 3 5) 3 area_state 30 ≡ some 2
unfolding is_special_record dbfetch wg_get_record_len getusedobjectwantedgintsnr unmarked
    wg_get_encoded_type wg_get_field is_wrong_field field_offset immediate_type isvar issmallint
    wg_decode_int decode_smallint fits_smallint
run1_lem_example =
    run1_lem whole_numbers (λ s. none) 3 5 area_state 30 112 (160 ∷ []) 3 words (omega arith) refl
      first both-Follow (omega arith) (omega arith)

run-goes_on_example :
    let d = engine_db whole_numbers (λ s. none) 3 5 in
    let end = (run d (λ s. 3) 5 (λ _. true) area_state (received b'1' b'0')).1 in
    (end ≡ running) ⊎ (end ≡ exited)
run-goes_on_example =
    run-goes_on (engine_db whole_numbers (λ s. none) 3 5) (λ s. 3) 5 (λ _. true) area_state b'1'
      b'0'

-- A database that only knows how many records it has.
abbrev counter : Db
counter = record {
  Store = ℕ;
  Rec = ℕ;
  Encoded = ℕ;
  create_record = λ s. some (s, suc s);
  encode_int = λ s value. (value, s);
  set_new_field = λ s rec enc. s;
  find_record_int = λ s value last. some none;
}

counter_filled : fill_db counter 0 ≡ some 5600
unfolding fill_db fill_loop write_records store_int
counter_filled = refl

main_cleans_up_example :
    tally (main counter no_ntop (some 0) none unbound).0
    ≡ record { detached = 1; deleted = 1; closes = 3 ∷ [] }
main_cleans_up_example =
    main_cleans_up counter no_ntop 0 5600 none unbound counter_filled unbound_ends.0 unbound_ends.1
