-- ===== src/Compact.antt =====
-- internal/compact and cmd/mnemonic/compact.go: entries made shorter by a language model.
pub mod Modes
pub mod Compacter
pub mod Command
pub mod Choices
pub mod Runs
