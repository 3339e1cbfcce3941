-- ===== src/Direct.antt =====
-- scripts/jellyfin-io-bench/directplay.go.
pub mod Phase
pub mod Player
pub mod Progress
pub mod Copy
pub mod Stats
pub mod Windows
pub mod Sequential
pub mod Media
pub mod Report
