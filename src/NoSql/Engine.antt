-- ===== src/NoSql/Engine.antt =====
-- The engine's model behind the interface of NoSql/Db: records are created, written and searched by dbdata.c and
-- dbquery.c. The database has no index, so that `wg_create_record` is `wg_create_raw_record`.
use wasm_cloud_computing_ben.Prelude.{ℕ, zero, suc, true, Option, none, some}
use wasm_cloud_computing_ben.Prelude.Int.{pos}
use wasm_cloud_computing_ben.Engine.{State}
use wasm_cloud_computing_ben.Engine.Compare.{Decoders}
use wasm_cloud_computing_ben.Engine.Values.{wg_encode_int}
use wasm_cloud_computing_ben.Engine.Gints.{Allocated, returned, outside, unfinished}
use wasm_cloud_computing_ben.Engine.Records.{wg_create_raw_record, wg_set_new_field}
use wasm_cloud_computing_ben.Engine.Query.{wg_find_record_int, wg_cond_equal}
use wasm_cloud_computing_ben.NoSql.Db.{Db}

-- 0 is NULL.
abbrev pub offset_of : Option ℕ → ℕ
offset_of none = 0
offset_of (some r) = r

abbrev pub record_at : ℕ → Option ℕ
record_at zero = none
record_at (suc n) = some (suc n)

abbrev pub as_record : Option ℕ → Option (Option ℕ)
as_record none = none
as_record (some r) = some (record_at r)

-- `undefined` is what comes of a bucket index out of the array, which C does not define, or of a loop that does
-- not end.
unfoldable pub created : Option (ℕ × State) → Allocated → Option (ℕ × State)
created undefined (returned zero s) = none
created undefined (returned (suc r) s) = some (suc r, s)
created undefined outside = undefined
created undefined unfinished = undefined

-- The integers that no_sql_db.c encodes fit a word, so that `wg_encode_int` allocates nothing.
abbrev pub engine_db : Decoders → (State → Option (ℕ × State)) → ℕ → ℕ → Db
engine_db decoders undefined rounds fuel = record {
  Store = State;
  Rec = ℕ;
  Encoded = ℕ;
  create_record = λ s. created (undefined s) (wg_create_raw_record 64 true s (pos 1));
  encode_int = λ s value. wg_encode_int true s value;
  set_new_field = λ s rec enc. (wg_set_new_field true s rec (pos 0) enc).1;
  find_record_int = λ s value last.
      as_record
        (wg_find_record_int decoders none rounds fuel s (pos 0) wg_cond_equal value
          (offset_of last)).0;
}
