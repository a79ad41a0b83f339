-- ===== src/Sqlite.antt =====
-- internal/store/sqlitestore/sqlite.go: the store in a SQLite database.
pub mod State
pub mod Rows
pub mod Queries
pub mod Changes
pub mod Table
pub mod Upserting
pub mod Hits
pub mod Confinement
pub mod Reach
pub mod Resolving
pub mod Removal
pub mod Api
pub mod Paging
pub mod Adding
pub mod Transfer
