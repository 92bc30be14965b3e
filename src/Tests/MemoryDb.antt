-- ===== src/Tests/MemoryDb.antt =====
-- A database in memory: a list of fields, a record being its index.
use wasm_cloud_computing_ben.Prelude.{
  Bool, false, ◌==◌, ℕ, suc, Option, none, some, List, [], ◌∷◌, ◌++◌, ltb, if◌then◌else◌, length,
  set, drop,
}
use wasm_cloud_computing_ben.NoSql.Db.{Db}

pub record Memory : Type 0 where
  pub cells : List (Option ℕ)
  pub capacity : ℕ

abbrev pub rows_from : ℕ → List (Option ℕ) → List (ℕ × Option ℕ)
rows_from k [] = []
rows_from k (c ∷ cs) = (k, c) ∷ rows_from (suc k) cs

abbrev pub create : Memory → Option (ℕ × Memory)
create m =
    if ltb (length m.cells) m.capacity
    then some (length m.cells, record m { cells = m.cells ++ (none ∷ []) })
    else none

abbrev has_value : ℕ → Option ℕ → Bool
has_value v none = false
has_value v (some w) = w == v

abbrev first_match : ℕ → List (ℕ × Option ℕ) → Option ℕ
first_match v [] = none
first_match v ((r, x) ∷ rows) = if has_value v x then some r else first_match v rows

abbrev pub find : Memory → ℕ → Option ℕ → Option (Option ℕ)
find m v none = some (first_match v (rows_from 0 m.cells))
find m v (some r) = some (first_match v (rows_from (suc r) (drop (suc r) m.cells)))

abbrev pub memory : Db
memory = record {
  Store = Memory;
  Rec = ℕ;
  Encoded = ℕ;
  create_record = create;
  encode_int = λ m v. (v, m);
  set_new_field = λ m r e. record m { cells = set m.cells r (some e) };
  find_record_int = find;
}

abbrev pub empty : Memory
empty = record { cells = []; capacity = 6000 }
