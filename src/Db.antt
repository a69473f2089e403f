-- ===== src/Db.antt =====
-- The SQLite store, src/core/db_sqlite.c.
pub mod StrBuf
pub mod Schema
pub mod Rows
pub mod History
