-- ===== src/Command/Stages/Recorded.antt =====
-- The report of `main`, by what was run.
use nixos_fleet.Base.{
  ℕ, ◌==◌, Bool, true, false, not, ◌&&◌, ◌||◌, List, [], ◌∷◌, ◌≡◌, refl, some, Bytes, ascii, arith,
  if◌then◌else◌,
}
use nixos_fleet.Command.State.{ran_dns, ran_probe, MainEnv, Bench, Stage, on, exited, and_next}
use nixos_fleet.Command.Stages.Kept.{
  IsRecorded, Good, IsWrittenLast, Keeps, recorded, if-Keeps, and_next-Keeps, exit-Keeps, act-Good,
}
use nixos_fleet.Command.Options.{Options}
use nixos_fleet.Command.Stages.{
  all, transcode_stage, direct_stage, json_stage, first_bench, run_dns, run_probe, stages, wants,
  bench_host, is_load, run_command, main_args,
}
use nixos_fleet.Text.Cut.{equal}
use nixos_fleet.Command.Stages.Stored.{transcode_stage-Keeps, direct_stage-Keeps, json_stage-Keeps}

module _ {ℓ} {F : Type ℓ} (env : MainEnv F) where
  first_bench-Good : (o : Options F) → Good env (first_bench o env)
  unfolding recorded
  first_bench-Good o = (refl, refl)

  run_dns-Good : (o : Options F) (b : Bench F) → Good env b → Good env (run_dns o env b)
  run_dns-Good o b h =
      act-Good env (ran_dns o.name) (record b.report { dns = some (env.dns o.name) }) b h refl refl

  run_probe-Good : (o : Options F) (b : Bench F) → Good env b → Good env (run_probe o env b)
  run_probe-Good o b h =
      act-Good env (ran_probe o.nfs_cache o.health_url o.xml_path)
        (record b.report { probe = some (env.probe o.nfs_cache o.health_url o.xml_path) }) b h refl
        refl

  if-Good : (c : Bool) (a b : Bench F) → Good env a → Good env b → Good env (if c then a else b)
  if-Good true a b x y = x
  if-Good false a b x y = y

  stages-Keeps : (cmd : Bytes) (o : Options F) → Keeps env (stages cmd o env)
  unfolding stages
  stages-Keeps cmd o =
      let b0 = first_bench o env in
      let b1 = if wants cmd (ascii "dns") then run_dns o env b0 else b0 in
      let b2 = if wants cmd (ascii "probe") then run_probe o env b1 else b1 in
      let h0 = first_bench-Good o in
      let h1 = if-Good (wants cmd (ascii "dns")) (run_dns o env b0) b0 (run_dns-Good o b0 h0) h0 in
      let h2 =
        if-Good (wants cmd (ascii "probe")) (run_probe o env b1) b1 (run_probe-Good o b1 h1) h1 in
      and_next-Keeps env _ _
        (if-Keeps env (wants cmd (ascii "transcode")) _ (on b2) (transcode_stage-Keeps env o b2 h2)
          h2)
        λ b h.
          and_next-Keeps env _ _
            (if-Keeps env (wants cmd (ascii "directplay")) _ (on b) (direct_stage-Keeps env o b h)
              h)
            λ b h. json_stage-Keeps env o b h

  run_command-Keeps : (cmd : Bytes) (o : Options F) → Keeps env (run_command cmd o env)
  unfolding run_command
  run_command-Keeps cmd o =
      let refused = exit-Keeps env (first_bench o env) (first_bench-Good o) in
      if-Keeps env (not o.force && (not (equal env.hostname bench_host) && is_load cmd))
        (exited 2 (first_bench o env)) _ refused
        (if-Keeps env (not (env.euid == 0) && (is_load cmd || equal cmd (ascii "probe")))
          (exited 2 (first_bench o env)) _ refused (stages-Keeps cmd o))

  main_args-Keeps : (args : List Bytes) (o : Options F) → Keeps env (main_args args o env)
  main_args-Keeps [] o = run_command-Keeps all o
  main_args-Keeps (cmd ∷ []) o = run_command-Keeps cmd o
  main_args-Keeps (_ ∷ _ ∷ _) o = exit-Keeps env (first_bench o env) (first_bench-Good o)

  abbrev IsOut : Stage F → Type 0
  IsOut (on b) = ⊥
  IsOut (exited n b) = Unit

  and_next-IsOut :
      (s : Stage F) (next : Bench F → Stage F)
      → ((b : Bench F) → IsOut (next b))
      → IsOut (and_next s next)
  and_next-IsOut (on b) next h = h b
  and_next-IsOut (exited n b) next h = tt

  json_stage-IsOut : (o : Options F) (b : Bench F) → IsOut (json_stage o env b)
  unfolding json_stage
  json_stage-IsOut o b = ground arith

  stages-IsOut : (cmd : Bytes) (o : Options F) → IsOut (stages cmd o env)
  unfolding stages
  stages-IsOut cmd o =
      let b0 = first_bench o env in
      let b1 = if wants cmd (ascii "dns") then run_dns o env b0 else b0 in
      let b2 = if wants cmd (ascii "probe") then run_probe o env b1 else b1 in
      let direct =
        λ (b : Bench F). if wants cmd (ascii "directplay") then direct_stage o env b else on b in
      and_next-IsOut (if wants cmd (ascii "transcode") then transcode_stage o env b2 else on b2)
        (λ b. and_next (direct b) (json_stage o env))
        λ b. and_next-IsOut (direct b) (json_stage o env) (json_stage-IsOut o)

  main_args-IsOut : (args : List Bytes) (o : Options F) → IsOut (main_args args o env)
  unfolding run_command
  main_args-IsOut [] o = ground (arith, stages-IsOut all o)
  main_args-IsOut (cmd ∷ []) o = ground (arith, stages-IsOut cmd o)
  main_args-IsOut (_ ∷ _ ∷ _) o = tt

  ends-IsTold :
      (s : Stage F)
      → Keeps env s
      → IsOut s
      → (n : ℕ) × (b : Bench F) × (s ≡ exited n b) × IsRecorded env b × IsWrittenLast env b
  ends-IsTold (on b) h out = absurd out
  ends-IsTold (exited n b) (r, w) out = (n, b, refl, r, w)

  -- `main` exits. Its report is then that of what was run, in the order in which it was: each phase
  -- with the result that it gave, also where it failed, but an idle phase only where it had no
  -- error. A report is handed to be written at most once, and it is this one, with nothing run
  -- behind it.
  pub main_args-IsRecorded :
      (args : List Bytes) (o : Options F)
      → (n : ℕ) × (b : Bench F) × (main_args args o env ≡ exited n b)
        × IsRecorded env b
        × IsWrittenLast env b
  main_args-IsRecorded args o =
      ends-IsTold (main_args args o env) (main_args-Keeps args o) (main_args-IsOut args o)
