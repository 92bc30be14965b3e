-- ===== src/Threads.antt =====
-- miscellaneous/tiny-threads-example/threads.c: `main` starts threads that each print their number, and
-- waits for all of them. A step of `main` or of a thread is a step of the program; the threads' steps
-- come in any order. The results of `malloc` and `pthread_create` are not looked at: to store in memory
-- that was not given and to join a thread that was not created is undefined, and `main` takes no step after it.
pub mod Printing
use wasm_cloud_computing_ben.Prelude.{
  ℕ, suc, ◌+◌, ◌<◌, ◌≡◌, ◌≢◌, List, [], ◌∷◌, ◌++◌, Bool, true, false, if◌then◌else◌, ◌==◌,
}

-- `created` and `joined` are the counters of the two loops of `main`; `sleeping` are the arguments of
-- the threads that have not printed yet, and `failed` those of the calls that created no thread.
pub record State : Type 0 where
  pub created : ℕ
  pub sleeping : List ℕ
  pub failed : List ℕ
  pub output : List ℕ
  pub joined : ℕ
  pub ended : Bool
  pub undefined : Bool

unfoldable pub initial : State
initial = record {
  created = 0;
  sleeping = [];
  failed = [];
  output = [];
  joined = 0;
  ended = false;
  undefined = false;
}

-- How often a number occurs.
unfoldable pub count : ℕ → List ℕ → ℕ
count v [] = 0
count v (x ∷ xs) = let rest = count v xs in if x == v then suc rest else rest

-- `pthread_create` of the next thread, which may fail; a thread's `printf`; `pthread_join`, which waits for a
-- thread that has printed; and the end of `main`. `no_memory` and `join_failed` are undefined.
pub data Step (num_threads : ℕ) : State → State → Type 0 where
  no_memory :
      (s : State)
      → s.undefined ≡ false
      → s.created ≡ 0
      → Step num_threads s (record s { undefined = true })
  create :
      (s : State)
      → s.undefined ≡ false
      → s.created < num_threads
      → Step num_threads s (record s { created = suc s.created; sleeping = s.created ∷ s.sleeping })
  create_failed :
      (s : State)
      → s.undefined ≡ false
      → s.created < num_threads
      → Step num_threads s (record s { created = suc s.created; failed = s.created ∷ s.failed })
  print :
      (s : State) (v : ℕ) (before after : List ℕ)
      → s.sleeping ≡ before ++ (v ∷ after)
      → Step num_threads s (record s { sleeping = before ++ after; output = v ∷ s.output })
  join :
      (s : State)
      → s.undefined ≡ false
      → s.created ≡ num_threads
      → s.joined < num_threads
      → count s.joined s.failed ≡ 0
      → count s.joined s.sleeping ≡ 0
      → Step num_threads s (record s { joined = suc s.joined })
  join_failed :
      (s : State)
      → s.undefined ≡ false
      → s.created ≡ num_threads
      → s.joined < num_threads
      → count s.joined s.failed ≢ 0
      → Step num_threads s (record s { undefined = true })
  end :
      (s : State)
      → s.undefined ≡ false
      → s.joined ≡ num_threads
      → Step num_threads s (record s { ended = true })

pub data Run (num_threads : ℕ) : State → Type 0 where
  start : Run num_threads initial
  step : (s t : State) → Run num_threads s → Step num_threads s t → Run num_threads t
