-- ===== src/Hnsw.antt =====
-- internal/index/hnsw/hnsw.go, internal/controller/index_hnsw.go and metadata.go: the index manager
-- that keeps its vectors in a graph in memory.
pub mod Manager
pub mod Coverage
pub mod Building
pub mod Flushing
pub mod Loading
