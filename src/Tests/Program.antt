-- ===== src/Tests/Program.antt =====
-- The bench's `main` from its arguments.
use nixos_fleet.Base.{true, List, [], ◌∷◌, ◌≡◌, ◌⊎◌, refl, any, Bytes, ascii, system, ok, err}
use nixos_fleet.Base.Int.{pos, negsuc}
use nixos_fleet.Base.Float.{Micros, micros_float}
use nixos_fleet.Command.State.{MainEnv, exited, write_json}
use nixos_fleet.Command.Stages.{
  bench_host, first_bench, run_command, stages, transcode_stage, transcode_phases, run_one,
  resolve_ffmpeg, ids_of, phase_opts, json_stage,
}
use nixos_fleet.Tests.Command.{env}
use nixos_fleet.Command.Guards.{actions_of, loads}
use nixos_fleet.Command.Ids.{lookup_ids}
use nixos_fleet.Command.Options.{Options, Parsers, defaults}
use nixos_fleet.Command.Program.{main}
use nixos_fleet.Command.Program.Arguments.{Any, Forces}
use nixos_fleet.Command.Program.Refused.{formal, main-loads}
use nixos_fleet.Text.Cut.{equal}
use nixos_fleet.Text.Flag.{parsed, parse_flags, parse_one, find_flag, shape, parse_bool}
use nixos_fleet.Text.Number.{atoi, parse_uint}

abbrev parsers : Parsers Micros
parsers = record { duration = λ s. err (system s); float = λ s. ok 0 }

abbrev laptop : Options Micros → MainEnv Micros
laptop o = record env { hostname = ascii "laptop" }

abbrev forcing : List Bytes
forcing = ascii "-idle=" ∷ ascii "--force=T" ∷ ascii "transcode" ∷ []

abbrev forced : List Bytes
forced = ascii "-disk" ∷ ascii "vda" ∷ ascii "--force=T" ∷ ascii "transcode" ∷ []

forced-loads : any loads (actions_of (main parsers forced laptop)) ≡ true
unfolding main parse_flags parse_one find_flag shape equal parse_bool run_command stages
    transcode_stage transcode_phases run_one ids_of phase_opts write_json resolve_ffmpeg json_stage
    defaults
forced-loads = refl

main-loads_example :
    (o : Options Micros) × (rest : List Bytes) × (parse_flags (formal parsers) forced defaults
      ≡ parsed o rest)
    × (Any Forces forced ⊎ (laptop o).hostname ≡ bench_host)
    × ((laptop o).euid ≡ 0)
main-loads_example = main-loads parsers forced laptop forced-loads

-- Without the flag the laptop is refused; a duration that cannot be read ends the program first.
main-refuses :
    main parsers (ascii "transcode" ∷ []) laptop ≡ exited 2 (first_bench defaults (laptop defaults))
unfolding main parse_flags parse_one find_flag shape equal run_command defaults
main-refuses = refl

main-bad_duration : main parsers forcing laptop ≡ exited 2 (first_bench defaults (laptop defaults))
unfolding main parse_flags parse_one find_flag shape equal defaults
main-bad_duration = refl

-- A flag behind the command is an argument: there is more than one, and the program ends.
main-flag_behind :
    main parsers (ascii "dns" ∷ ascii "-force" ∷ []) laptop
    ≡ exited 2 (first_bench defaults (laptop defaults))
unfolding main parse_flags parse_one find_flag shape equal defaults
main-flag_behind = refl

lookup_ids-values :
    lookup_ids (ok (record { uid = ascii "-7"; gid = ascii "+100" }))
    ≡ ok (record { uid = negsuc 6; gid = pos 100 })
unfolding lookup_ids atoi parse_uint
lookup_ids-values = refl
