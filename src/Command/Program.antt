-- ===== src/Command/Program.antt =====
-- scripts/jellyfin-io-bench/main.go: `main` from its arguments to its exit code.
pub mod Arguments
pub mod Effects
pub mod Refused
use nixos_fleet.Base.{List, [], Bytes}
use nixos_fleet.Base.Float.{Float64}
use nixos_fleet.Command.State.{MainEnv, Stage, exited}
use nixos_fleet.Command.Stages.{first_bench, main_args}
use nixos_fleet.Command.Options.{Options, Parsers, defaults, formals}
use nixos_fleet.Text.Flag.{Parsed, parsed, help, bad, find_flag, parse_flags}

module _ {ℓ} {F : Type ℓ} ⦃f : Float64 F⦄ where
  -- What the arguments name decides what the rest of `main` meets.
  abbrev pub main_parsed : (Options F → MainEnv F) → Parsed (Options F) → Stage F
  main_parsed env help = exited 0 (first_bench defaults (env defaults))
  main_parsed env bad = exited 2 (first_bench defaults (env defaults))
  main_parsed env (parsed o args) = main_args args o (env o)

  unfoldable pub main : Parsers F → List Bytes → (Options F → MainEnv F) → Stage F
  main ps args env = main_parsed env (parse_flags (find_flag (formals ps)) args defaults)
