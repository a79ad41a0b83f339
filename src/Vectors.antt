-- ===== src/Vectors.antt =====
-- internal/index/sqlitevec and internal/controller/index_sqlite.go: the index of vectors in a
-- SQLite database.
pub mod Index
pub mod Manager
pub mod Tables
pub mod Lookup
pub mod Insertion
pub mod Building
pub mod Api
pub mod Saving
