-- ===== src/Health.antt =====
-- internal/health: the TCP probe, the state machine of one backend, and the scheduler that runs
-- one such machine for each target.
pub mod Runner
pub mod Scheduler
pub mod Invariant
pub mod Hysteresis
pub mod Lifecycle
pub mod Starting
