-- ===== src/Config.antt =====
-- The configuration file that is merged into the command line: pkg/configfilearg.
pub mod Values
pub mod Flags
pub mod Parser
pub mod Merge
pub mod Order
pub mod Override
pub mod DropIns
mod Tests
