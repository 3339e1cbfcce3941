-- ===== src/Command/Guards.antt =====
-- What `main` runs, and where.
use nixos_fleet.Base.{Bool, true, false, List, [], ◌∷◌, ◌≡◌, ◌⊎◌, any, Bytes, arith}
use nixos_fleet.Command.State.{
  MainEnv, Action, ran_idle, ran_phase, ran_direct, Stage, on, exited, write_json,
}
use nixos_fleet.Command.Options.{Options}
use nixos_fleet.Command.Stages.{
  all, json_stage, stages, bench_host, is_load, run_command, main_args,
}
use nixos_fleet.Text.Cut.{equal_iff}

module _ {ℓ} {F : Type ℓ} where
  abbrev pub actions_of : Stage F → List (Action F)
  actions_of (on b) = b.actions
  actions_of (exited n b) = b.actions

  -- The actions that load the host.
  abbrev pub loads : Action F → Bool
  loads (ran_idle disk health run_for) = true
  loads (ran_phase o) = true
  loads (ran_direct o) = true
  loads _ = false

  abbrev has_load : Stage F → Bool
  has_load s = any loads (actions_of s)

  stages-no_load :
      (cmd : Bytes) (o : Options F) (env : MainEnv F)
      → is_load cmd ≡ false
      → has_load (stages cmd o env) ≡ false
  unfolding stages json_stage write_json
  stages-no_load cmd o env h = ground arith

  run_command-loads :
      (cmd : Bytes) (o : Options F) (env : MainEnv F)
      → has_load (run_command cmd o env) ≡ true
      → ((o.force ≡ true) ⊎ (env.hostname ≡ bench_host)) × (env.euid ≡ 0)
  unfolding run_command
  run_command-loads cmd o env h =
      ground (arith, stages-no_load cmd o env, equal_iff env.hostname bench_host)

  -- Where anything was run that loads the host, whatever the command, the host is the bench's or the
  -- flag was given that forces it, and the user is root.
  pub main_args-loads :
      (args : List Bytes) (o : Options F) (env : MainEnv F)
      → has_load (main_args args o env) ≡ true
      → ((o.force ≡ true) ⊎ (env.hostname ≡ bench_host)) × (env.euid ≡ 0)
  main_args-loads [] o env h = run_command-loads all o env h
  main_args-loads (cmd ∷ []) o env h = run_command-loads cmd o env h
  main_args-loads (_ ∷ _ ∷ _) o env h = absurd (cc)
