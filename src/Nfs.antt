-- ===== src/Nfs.antt =====
-- scripts/jellyfin-io-bench/nfs.go: the NFS client's counters, and the mount table.
pub mod Stats
pub mod Mounts
