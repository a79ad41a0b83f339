-- ===== src/Controller.antt =====
-- internal/controller/controller.go: a store with an index of embeddings beside it.
pub mod Interface
pub mod State
pub mod Changes
pub mod Searches
pub mod Deduplication
pub mod Merging
pub mod Similarity
pub mod Api
