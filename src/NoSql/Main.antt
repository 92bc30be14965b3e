-- ===== src/NoSql/Main.antt =====
-- `main` of workloads/no_sql_db/wasm-src/no_sql_db.c.
pub mod Cleanup
use wasm_cloud_computing_ben.Prelude.{ℕ, Option, none, some, List, [], ◌∷◌}
use wasm_cloud_computing_ben.Server.Address.{Ntop}
use wasm_cloud_computing_ben.Server.{
  Event, database_detached, database_deleted, jumped, Answers, serve, Exit, success, finish,
}
use wasm_cloud_computing_ben.NoSql.Db.{Db}
use wasm_cloud_computing_ben.NoSql.Work.{fill_db}

abbrev pub cleanup : List Event
cleanup = database_detached ∷ database_deleted ∷ []

module _ (d : Db) (ntop : Ntop) where
  -- `attached` is what `wg_attach_database` returns. If it is NULL the code jumps over the
  -- initialisation of `socket_fd`: `indeterminate` is what that variable then holds (`none`: a
  -- negative number). `exit(0)` in `fill_db` ends the process with status 0.
  unfoldable pub main : Option (d.Store) → Option ℕ → Answers → List Event × Exit
  main none indeterminate os = finish cleanup (indeterminate, [], jumped)
  main (some s) indeterminate os = elim (fill_db d s) [
    | none ↦ ([], success)
    | some s' ↦ finish cleanup (serve ntop os)
  ]
