-- ===== src/Embed.antt =====
-- internal/embed/embedding.go: the client of the service that makes embeddings.
pub mod Client
pub mod Preflight
