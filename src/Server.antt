-- ===== src/Server.antt =====
-- internal/server: who may call the daemon over TCP, and the tools that it serves.
pub mod Middleware
pub mod Access
pub mod Model
pub mod Handlers
pub mod Categories
pub mod Limits
pub mod Composed
