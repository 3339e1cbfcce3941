-- ===== src/Command.antt =====
-- scripts/jellyfin-io-bench/main.go: `main`, its flags, its stages and its report.
pub mod State
pub mod Stages
pub mod Guards
pub mod Ids
pub mod Options
pub mod Program
