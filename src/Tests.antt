-- ===== src/Tests.antt =====
-- The theorems at concrete inputs.
mod Fixtures
mod Health
mod Config
mod Ipvs
mod Kernel
mod Handle
mod Daemon
mod Shell
mod Sessions
mod Loading
mod System
mod Observability
