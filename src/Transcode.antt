-- ===== src/Transcode.antt =====
-- scripts/jellyfin-io-bench/transcode.go.
pub mod Tail
pub mod Sampling
pub mod Ffmpeg
pub mod Directory
pub mod Phase
pub mod Idle
