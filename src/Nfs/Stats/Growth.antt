-- ===== src/Nfs/Stats/Growth.antt =====
-- `nfsDelta` over counters that grow.
use nixos_fleet.Base.{◌+◌, ◌%◌, ◌&&◌, ◌≡◌}
use nixos_fleet.Base.Word.{u64_mod, sub64_growth}
use nixos_fleet.Nfs.Stats.{NfsSnap, nfs_delta}
use nixos_fleet.Nfs.Stats.Sections.{IsUint64}

-- What is read of true counters.
abbrev pub reading : NfsSnap → NfsSnap
reading s = record {
  normal_read = s.normal_read % u64_mod;
  normal_write = s.normal_write % u64_mod;
  server_read = s.server_read % u64_mod;
  server_write = s.server_write % u64_mod;
  write_ops = s.write_ops % u64_mod;
  commit_ops = s.commit_ops % u64_mod;
  read_plus_ops = s.read_plus_ops % u64_mod;
  sends = s.sends % u64_mod;
  recvs = s.recvs % u64_mod;
  bad_xids = s.bad_xids % u64_mod;
  found = s.found;
}

-- The counters after they have grown.
abbrev pub grown : NfsSnap → NfsSnap → NfsSnap
grown s d = record {
  normal_read = s.normal_read + d.normal_read;
  normal_write = s.normal_write + d.normal_write;
  server_read = s.server_read + d.server_read;
  server_write = s.server_write + d.server_write;
  write_ops = s.write_ops + d.write_ops;
  commit_ops = s.commit_ops + d.commit_ops;
  read_plus_ops = s.read_plus_ops + d.read_plus_ops;
  sends = s.sends + d.sends;
  recvs = s.recvs + d.recvs;
  bad_xids = s.bad_xids + d.bad_xids;
  found = d.found;
}

-- Where every counter grew by less than 2 ^ 64 between two readings, `nfsDelta` of the readings
-- is the growth of each, also where one wrapped in between; it is marked found exactly when both
-- readings are.
pub nfs_delta-grown :
    (s d : NfsSnap)
    → IsUint64 d
    → nfs_delta (reading s) (reading (grown s d)) ≡ record d { found = s.found && d.found }
unfolding nfs_delta
nfs_delta-grown s d h = rw (
  sub64_growth s.normal_read d.normal_read h.normal_read,
  sub64_growth s.normal_write d.normal_write h.normal_write,
  sub64_growth s.server_read d.server_read h.server_read,
  sub64_growth s.server_write d.server_write h.server_write,
  sub64_growth s.write_ops d.write_ops h.write_ops,
  sub64_growth s.commit_ops d.commit_ops h.commit_ops,
  sub64_growth s.read_plus_ops d.read_plus_ops h.read_plus_ops,
  sub64_growth s.sends d.sends h.sends,
  sub64_growth s.recvs d.recvs h.recvs,
  sub64_growth s.bad_xids d.bad_xids h.bad_xids,
)
