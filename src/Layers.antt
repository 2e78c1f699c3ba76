-- ===== src/Layers.antt =====
-- The content-addressed layer store of the sandbox snapshots: pkg/sandboxlayer and its callers.
pub mod Store
pub mod Collection
pub mod Sound
pub mod Writing
pub mod Chunks
pub mod Leases
pub mod Snapshots
pub mod Saved
pub mod Kept
pub mod Restore
pub mod Unlisted
mod Tests
