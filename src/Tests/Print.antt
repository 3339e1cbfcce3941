-- ===== src/Tests/Print.antt =====
-- The printers at small inputs.
use nixos_fleet.Base.{◌/◌, ◌^◌, true, [], ◌∷◌, ◌++◌, ◌≡◌, refl, some, ascii}
use nixos_fleet.Base.Float.{Micros, micros_float, of_uint}
use nixos_fleet.Health.{no_summary}
use nixos_fleet.Nfs.Mounts.{named}
use nixos_fleet.Nfs.Stats.{no_snap}
use nixos_fleet.Print.{indent, fs_text}
use nixos_fleet.Print.Phases.{
  print_phase, dest_text, rates_text, sizes_text, health_text, tail_text,
}
use nixos_fleet.Text.Cut.{equal, split, join}
use nixos_fleet.Text.Format.{Verbs, decimal, hexadecimal, left, list_text, trim_newlines}
use nixos_fleet.Transcode.Phase.{PhaseResult}

abbrev verbs : Verbs Micros
verbs = record {
  fixed = λ n x. decimal (x / 10 ^ 6);
  signed = λ n x. b'+' ∷ decimal (x / 10 ^ 6);
  quoted = λ s. b'"' ∷ (s ++ ascii "\"");
  error = λ e. [];
}

decimal-digits : decimal 9040 ≡ ascii "9040"
unfolding decimal
decimal-digits = refl

hexadecimal-digits : hexadecimal 0x6969 ≡ ascii "6969"
unfolding hexadecimal
hexadecimal-digits = refl

-- Newlines at the end go, and those within are indented.
indent-lines : indent (ascii "a\n\nb\n\n") (ascii "  ") ≡ ascii "  a\n  \n  b"
unfolding indent split join trim_newlines
indent-lines = refl

left-padded : left 6 (0xC3 ∷ 0xA9 ∷ ascii "t") ≡ 0xC3 ∷ 0xA9 ∷ ascii "t    "
left-padded = refl

list_text-two : list_text (ascii "a" ∷ ascii "b" ∷ []) ≡ ascii "[a b]"
list_text-two = refl

abbrev phase : PhaseResult Micros
phase = record {
  name = ascii "nfs";
  dest = ascii "/d";
  fs_type = named (ascii "nfs");
  realtime_throttle = true;
  wall_seconds = of_uint 12;
  ffmpeg_exit = ascii "ok";
  iowait_pct = of_uint 1;
  iowait_pct_max = of_uint 2;
  sda_mib_read = of_uint 3;
  sda_mib_written = of_uint 4;
  dest_mib = of_uint 5;
  root_avail_delta_mib = of_uint 6;
  root_avail_after_mib = of_uint 7;
  dest_avail_delta_mib = of_uint 8;
  dest_avail_after_mib = of_uint 9;
  nfs = some no_snap;
  health = some (no_summary []);
  files = 10;
  samples = [];
  ffmpeg_tail = ascii "x\ny\n";
}

print_phase-text :
    print_phase verbs phase
    ≡ ascii
        "\n== nfs ==\n  dest=/d fstype=nfs throttle(-re)=true wall=12s ffmpeg=ok\n  iowait avg=1% max=2%  sda read=3 MiB write=4 MiB\n  dest=5 MiB (10 files)  root avail "
      ++ (0xCE ∷ 0x94 ∷ ascii "=+6 MiB (after 7 MiB)  dest avail "
          ++ (0xCE ∷ 0x94 ∷ ascii "=+8 MiB\n  ffmpeg tail:\n    x\n    y\n"))
unfolding print_phase dest_text rates_text sizes_text health_text tail_text fs_text decimal equal
    indent split join trim_newlines
print_phase-text = refl
