-- ===== src/Daemon.antt =====
-- internal/daemon: the engine that follows the virtual address and the health of the backends, and
-- reconciles the kernel with the configuration.
pub mod Weights
pub mod Backoff
pub mod Engine
pub mod Handlers
pub mod Gating
pub mod Reloads
pub mod Reloaded
pub mod Races
pub mod Retries
pub mod Loop
