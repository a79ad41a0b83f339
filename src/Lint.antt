-- ===== src/Lint.antt =====
-- internal/lint/lint.go: which entries a user is advised to merge or to delete.
pub mod Analysis
pub mod Laws
pub mod Consistency
pub mod Review
pub mod Finishing
