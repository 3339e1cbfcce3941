-- ===== src/Measure.antt =====
-- scripts/jellyfin-io-bench/measure.go: what is read of the kernel's counters.
pub mod Cpu
pub mod Disk
pub mod Memory
pub mod Walk
pub mod Rates
