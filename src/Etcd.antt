-- ===== src/Etcd.antt =====
-- The embedded etcd cluster: pkg/etcd.
pub mod Learners
pub mod Snapshots
mod Tests
mod SnapshotTests
