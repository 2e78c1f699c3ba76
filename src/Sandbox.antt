-- ===== src/Sandbox.antt =====
-- The sandbox matrix: pkg/sandboxmatrix and pkg/sandboxmatrix/grpc.
pub mod Pods
pub mod Sizing
pub mod Demand
pub mod WarmPool
pub mod Env
pub mod RateLimit
pub mod ApiKeys
mod Tests
mod AccessTests
