-- ===== src/Gateway.antt =====
-- The sandbox gateway: the sessions, exposed ports, background runs and approvals of
-- pkg/sandboxmatrix/grpc/orchestrator.go and expose.go.
pub mod Api
pub mod Policy
pub mod Claims
pub mod Sessions
pub mod Runs
pub mod Approvals
-- What is proved of them, on the laws of the Kubernetes API in Store.
pub mod Store
pub mod Claimed
pub mod Created
pub mod Destroyed
pub mod Released
pub mod Children
pub mod Paused
pub mod Resumed
pub mod Ports
pub mod Exposed
mod Memory
mod Tests
mod CreateTests
mod RunTests
