-- ===== src/Ipvs.antt =====
-- internal/ipvs: the records of services and backends, the manager interface, the reconciler, and the
-- cache in front of the kernel.
pub mod Types
pub mod Keys
pub mod Manager
pub mod Expand
pub mod Reconciler
pub mod Cache
pub mod Replies
pub mod Coherence
pub mod Outcome
pub mod Kernel
pub mod Upsert
pub mod Prune
pub mod Linux
pub mod Laws
pub mod Programming
pub mod Converge
pub mod Removal
pub mod Applying
