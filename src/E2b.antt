-- ===== src/E2b.antt =====
-- The E2B-compatible daemon: pkg/sandbox/e2b.
pub mod Registry
pub mod CrdState
pub mod ProcessTable
mod Tests
mod StateTests
