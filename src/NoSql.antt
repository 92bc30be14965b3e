-- ===== src/NoSql.antt =====
-- no_sql_db.c: the workload over the database's interface, and the connection.
pub mod Db
pub mod Engine
pub mod Work
pub mod Connection
pub mod Main
