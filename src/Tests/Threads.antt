-- ===== src/Tests/Threads.antt =====
-- One thread, from its creation to the end of the program.
use wasm_cloud_computing_ben.Prelude.{[], ◌∷◌, true, false}
use wasm_cloud_computing_ben.Threads.{State}

abbrev sleeping_thread : State
sleeping_thread = record {
  created = 1;
  sleeping = 0 ∷ [];
  failed = [];
  output = [];
  joined = 0;
  ended = false;
  undefined = false;
}

abbrev printed_thread : State
printed_thread = record {
  created = 1;
  sleeping = [];
  failed = [];
  output = 0 ∷ [];
  joined = 0;
  ended = false;
  undefined = false;
}

abbrev joined_thread : State
joined_thread = record {
  created = 1;
  sleeping = [];
  failed = [];
  output = 0 ∷ [];
  joined = 1;
  ended = false;
  undefined = false;
}

abbrev ended_program : State
ended_program = record {
  created = 1;
  sleeping = [];
  failed = [];
  output = 0 ∷ [];
  joined = 1;
  ended = true;
  undefined = false;
}
