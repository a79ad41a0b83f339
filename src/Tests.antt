-- ===== src/Tests.antt =====
-- The theorems at concrete inputs, and runs of the model.
mod Sample
mod VectorTests
mod StopTests
mod TransferTests
mod LoadTests
mod YamlTests
mod DiskTests
mod QueryTests
mod RankingTests
mod LintTests
mod SqliteTests
mod ServerTests
mod HandlerTests
mod CompactTests
mod DaemonTests
mod ReviewTests
mod SnapshotTests
mod ControllerTests
mod ConfigTests
mod EmbedTests
mod HnswTests
