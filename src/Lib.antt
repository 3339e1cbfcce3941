-- ===== src/Lib.antt =====
-- The Go programs of the fleet: jellyfin-io-bench, which measures the disk, NFS and ffmpeg under a
-- Jellyfin server, and attic-nar-proxy, which answers redirects of a Nix cache from its object
-- store. Paths below are from the repository's root; `bench` is scripts/jellyfin-io-bench.
--
-- The bench reads counters (measure.go, nfs.go) before, during and after it runs something: the
-- phases of a transcode (transcode.go) with a poll of Jellyfin's health beside them (health.go),
-- or the phases of direct play (directplay.go), and reports the differences. The proxy hands every
-- response of its upstream to one function.
--
-- Files, and the code that they model:
--   Base      what all share: tests, lists, integers, machine words, errors and results, float64
--   Text      the functions of strings, bufio and strconv that the code calls, on bytes
--   Measure   bench/measure.go: Cpu readCPU, Disk readDisk and rootAvail, Walk dirBytes, Memory
--             memAvailableKiB, Rates iowaitPct, mib and mibSectors
--   Nfs       bench/nfs.go: Mounts parseProcMounts, findmntFSType, destAvail and destSize, Stats
--             readNFSSnap, uintFields and nfsDelta
--   NarProxy  services/attic-nar-proxy/main.go: followS3Redirect, Server main and its reverse
--             proxy, Outgoing what ReverseProxy does besides, Url what they use of net/url
--   Dns       bench/dns.go: lookupVia, lookupSystem, fetchHTTPS and runDNS
--   Health    bench/health.go: pollHealth, Start startHealth
--   Probe     bench/probe.go: readCachePathXML, systemctlShow, probeWriteInfo and runProbe
--   Direct    bench/directplay.go: Phase DirectPlayPhase, Stats percentile and windowStats, Windows
--             the one-second windows, Player runPlayerSim, Sequential runSequentialMax, Progress
--             parseFFmpegProgress, Copy runFFmpegCopy, Media findFFprobe, probeMedia and dropCaches,
--             Report runDirectPlay
--   Transcode bench/transcode.go: Tail lastLines, Directory emptyDir and mountTmpfs, Ffmpeg
--             runFFmpeg by how its process ends, Ffmpeg/Select its select, Sampling sampleLoop,
--             Phase runPhase, Idle idlePhase
--   Search    bench/main.go: ffmpegFromJellyfin and findFFmpeg
--   Command   bench/main.go: Options the flags, Program main from its arguments, Stages main behind
--             its flags, State its report and writeJSON, Ids lookupIDs
--   Print     bench/main.go: indent, printPhase, printProbe and what main prints of the DNS report;
--             bench/directplay.go: printDirectPlay; the texts of the notes
--   Tests     runs at small inputs
-- The child modules hold the theorems on their parent's definitions.
--
-- What the world answers is an argument: what a file holds, an error of a call, the reading of a
-- clock, how a process ends. A loop over a file or a clock takes the list of its rounds, each with
-- what it meets, and `waiting` or `none` says that it would go on behind the last; the rounds that
-- end it are named where a theorem says that it ends. A tick and a select are the order of these
-- rounds. Two parts of the code are step relations over what they share, in any order of their
-- steps: the goroutine of startHealth with the closure that joins it, and runFFmpeg with its
-- process, the goroutine that waits for it and the timers, whose ends the function run_ffmpeg
-- tells apart. The goroutine of runPhase hands over one value, which the model passes on. An
-- effect that matters (a stream closed, a request sent, a mount, a directory emptied) is an
-- element of a list that the code's function returns beside its result.
--
-- Numbers: uint64 is a natural number with the wrap-around written out, int64 an integer whose
-- bounds are not reached by durations and offsets. A time is in nanoseconds since some start. A
-- float64 is an element of a type with the operations that the code uses (`Float64`); a theorem
-- that needs the order of numbers or the cut of a fraction of an index names it as a hypothesis
-- (`IsOrdered`, `HasIndices`), and `Micros`, whole millionths, meets both. A string is its bytes.
-- Text models the standard library on all bytes for Cut, Split, Join, the prefixes and suffixes,
-- ParseUint in base 10, Atoi, the flags of package flag, Join of path/filepath, Fields and
-- TrimSpace with the white space of Unicode in UTF-8, and Scanner with its limit of 64 KiB for a
-- line. The one loop on fuel closes the windows that are over; its fuel is the whole seconds since
-- the last window's end, and one more, and a theorem shows that the loop's own test ends it.
--
-- Not modelled: the text of the JSON report (json.MarshalIndent is a parameter), the messages on
-- standard error and the usage text; time.ParseDuration and strconv.ParseFloat on the command
-- line, the printing of a float64, the quoting of a string and the text of an error, which are
-- parameters; the connections of net/http, and the re-encoding of a query that net/url cannot read
-- whole, a parameter too; and the fleet's Nix, Ansible and dashboard files, which are configuration.
pub mod Base
pub mod Text
pub mod Measure
pub mod Nfs
pub mod NarProxy
pub mod Dns
pub mod Health
pub mod Direct
pub mod Transcode
pub mod Search
pub mod Probe
pub mod Command
pub mod Print
pub mod Tests
