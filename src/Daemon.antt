-- ===== src/Daemon.antt =====
-- internal/daemon/daemon_admin.go and cmd/mnemonic/admin_backend.go: the entries of a running
-- daemon, as the commands reach them.
pub mod Admin
pub mod Client
pub mod Remote
pub mod Stopping
pub mod Watching
