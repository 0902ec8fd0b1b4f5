-- ===== src/Shell.antt =====
-- internal/shell: the interactive shell `lbctl`, and the file that locks the configuration.
pub mod Parsing
pub mod ServiceMode
pub mod Lock
pub mod Exclusion
pub mod Calls
pub mod Gap
pub mod Breaking
pub mod ConfigMode
pub mod Commit
pub mod Written
pub mod Publishing
pub mod Reverting
pub mod Session
pub mod Help
pub mod Commands
pub mod Lines
pub mod Staging
pub mod Consistency
pub mod Runs
pub mod LockManager
pub mod FileStore
