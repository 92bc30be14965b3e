-- ===== src/NoSql/Db.antt =====
-- The interface of the database (workloads/no_sql_db/wasm-src/dbapi.h and indexapi.h) as no_sql_db.c
-- uses it: records of one field that holds an integer. NoSql/Engine is the engine behind it.
use wasm_cloud_computing_ben.Prelude.{ℕ, Option}

-- The calls, each with the database after it. Pointers that may be NULL are options.
pub record Db : Type 1 where
  pub Store : Type 0
  pub Rec : Type 0
  pub Encoded : Type 0
  -- `wg_create_record(db, 1)`
  pub create_record : Store → Option (Rec × Store)
  -- `wg_encode_int(db, value)`
  pub encode_int : Store → ℕ → Encoded × Store
  -- `wg_set_new_field(db, rec, 0, enc)`
  pub set_new_field : Store → Rec → Encoded → Store
  -- `wg_find_record_int(db, 0, WG_COND_EQUAL, value, last)`; the outer `none` is a lack of fuel
  pub find_record_int : Store → ℕ → Option Rec → Option (Option Rec)
