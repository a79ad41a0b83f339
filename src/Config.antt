-- ===== src/Config.antt =====
-- internal/config/config.go: the settings, from files, the environment and the command line.
pub mod State
pub mod Values
pub mod Laws
pub mod Settings
pub mod Digits
