-- ===== src/Snapshot.antt =====
-- internal/store/snapshot_store.go and noop_store.go: the store of the commands that work on a
-- copy of a daemon's entries, and the store without entries.
pub mod State
pub mod Noop
pub mod Laws
pub mod Following
pub mod Api
