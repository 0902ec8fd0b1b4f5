-- ===== src/Config.antt =====
-- internal/config: the configuration records, their validation, and the loading of files.
pub mod Types
pub mod Names
pub mod Validator
pub mod Checks
pub mod Soundness
pub mod Services
pub mod Defaults
pub mod Writer
pub mod EnvVars
pub mod Missing
pub mod References
pub mod Loader
pub mod Loading
