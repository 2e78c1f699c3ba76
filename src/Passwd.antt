-- ===== src/Passwd.antt =====
-- The file of passwords that the supervisor keeps: pkg/passwd/passwd.go.
pub mod Users
pub mod Rows
pub mod Tracked
pub mod Reread
mod Tests
