-- ===== src/System.antt =====
-- internal/system: the texts that the program writes into files of the system.
pub mod Index
pub mod Frr
pub mod Sysctl
pub mod Patching
