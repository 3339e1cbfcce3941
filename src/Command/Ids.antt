-- ===== src/Command/Ids.antt =====
-- scripts/jellyfin-io-bench/main.go: `lookupIDs`, over what user.Lookup answers.
pub mod Written
use nixos_fleet.Base.{Bytes, Result, ◌>>=◌, ok}
use nixos_fleet.Base.Int.{ℤ}
use nixos_fleet.Text.Number.{atoi, checked}

-- The two fields of user.User that are read.
pub record User : Type 0 where
  pub uid : Bytes
  pub gid : Bytes

pub record Ids : Type 0 where
  pub uid : ℤ
  pub gid : ℤ

unfoldable pub lookup_ids : Result User → Result Ids
lookup_ids answer = do
  u ← answer
  uid ← checked (atoi u.uid)
  gid ← checked (atoi u.gid)
  ok (record { uid = uid; gid = gid })
