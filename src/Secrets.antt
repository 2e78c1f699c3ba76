-- ===== src/Secrets.antt =====
-- Encryption of Kubernetes secrets at rest: pkg/server/secrets-encrypt.go and
-- pkg/secretsencrypt/config.go.
pub mod Cluster
pub mod Checks
pub mod Stages
pub mod Answers
mod Steps
pub mod Cycle
pub mod Forced
pub mod Keys
mod Tests
