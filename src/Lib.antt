-- ===== src/Lib.antt =====
-- Verification library of the Rust programs of this repository.
--
-- The programs and their files:
--   statmon/src: a daemon that reads statistics of its host from files under /proc and from hardware
--     counters, twice a second and on commands of TCP connections, and sends them as a packet.
--   pin-NearMAP/analyse-results/src/main.rs: reads logs of memory accesses in phases, and counts the
--     pages that each phase reads and writes.
--   faasmspeed/src/main.rs: sends requests to a service at a fixed rate, a given part of them in the
--     form that may be offloaded to near-data processing, commands the daemons of statmon, and
--     reports on the latencies.
--   ndoffloadsim/src/main.rs: the types of a simulator, and the mask of a node.
-- faasmspeed and statmon interact only by the bytes `[`, `]` and `q` of a connection.
--
-- Base: Rust's results and panics (Outcome), integers of 32, 64 and 128 bits (Words), lists, and the
--   integers on native numbers (Int). A build is `debug`, where overflow panics, or `release`, where
--   it wraps around. A text is the list of its characters' codes; Text has the functions of `str`
--   that the programs call, Text/Parse and Text/Print the conversions of numbers, Text/Commas the
--   parts between commas.
-- Statmon, for statmon/src:
--   Value, Which, Stat, Init: `StatValue`, `WhichStat`, `Stat` and `STATS_INIT` of stats.rs. The
--     operations on f64 are the interface `FloatOps`.
--   Run: methods on a state that end with a value, an error of `?`, or a panic. A panic leaves no
--     state: the release profile of statmon/Cargo.toml aborts on it, and in a debug build the
--     theorems say nothing of the states behind one.
--   Host: the answers of the operating system and of the crates perfcnt, regex and itertools in one
--     round. These are arguments of the model.
--   Cpu, Io, Event: `CpuStat`, `IoStat` and `EventStat`, with Fields for the arrays of the first two.
--     `update` of the first two calls itself once, when its file is opened.
--   Stats with Stats/Meminfo, Stats/Faasm and Stats/Net, and Monitor: `struct Stats` and its methods.
--   Packet: `stat_packet`. Server: `conn_handler` of main.rs, and the steps of ticks and commands on
--     the shared state; the mutex makes each of them one step. Server/Startup: the two updates before
--     `async_main` listens. Server/Ranges/Whole: what a range from `[` to `]` gives, from Monitor/Reads
--     (what the reading of the files keeps) and Monitor/Slots (one statistic in an update).
--   Table, Invariant: the kinds of the statistics under every step. Run/Keeps has the rules with which
--     the methods are searched through.
--   Safety, with Cpu/Sizes and Io/Sizes: which panics an update can end with. Its rules are Run/Safe.
--     Safety/Daemon is about all updates and commands of a run.
--   Meminfo/Written, Stats/Meminfo/Stored: the lines that Linux writes to /proc/meminfo, and what
--     the reading of them stores. The lines themselves are Text/Words and Text/Written.
--   Range: one integer statistic from a reset on. Packet/Fields, Values, Plain and Measured:
--     how a packet is read, and what it says of a range. Event/Opened: which
--     statistic reads which counters. Io/Overwrite, Server/Ranges: what one operation gives;
--     Server/Ranges/Ticks: that the timer keeps a range open.
-- NearMap, for pin-NearMAP/analyse-results/src/main.rs: Access (`AccessType`, `TracePhase`, the map of
--   pages), Trace (the loop over the lines), Analysis (the counts and the table), Folder (the walk
--   over a folder, and `main`). Trace/Written has the log as pin-NearMAP/NearMAP.cpp writes it, with
--   the notes on its stubs in between, Trace/OneLine its lines, and Trace/ReadBack its reading. Names,
--   Distinct, Bounds, Once, FirstReads and Columns have the other proofs.
-- OffloadSim, for ndoffloadsim/src/main.rs: the types of a scheduling problem, and the masks of nodes.
-- Faasmspeed, for faasmspeed/src/main.rs:
--   Options (`get_opts`); Json (`make_json_call`), with a reader of JSON below it; Requests (the
--     inputs, the pool of requests and the test request of `run_function`), with Requests/Run
--     (the task from its options to its requests, a oneshot and a dry run included) and Requests/Sent (what each of them carries).
--   Schedule: the loop of `run_function` that chooses each request. Schedule/Plain is the loop as a
--     recursion on plain numbers.
--   Phases: the tasks that `async_main` spawns, as steps in any order. Parties is the barrier of the
--     crate tokio, an interface with its laws; Kept has the cases of an invariant of the steps, Sync
--     and Lockstep the barrier's, Guards a task's, Monitoring that of `async_main`, Tally and Counters
--     that of the atomic counters; Progress, Onward and NoDeadlock find the next step, Ends counts the
--     steps that are left, and Liveness takes them; Percent is the line of progress. Share
--     joins the forms that Schedule chooses to the counters. The forms of the
--     requests of a task are a parameter of the steps. The steps leave out the `while` of the
--     generator, which is part of Schedule, and the turns of the loop that prints the progress.
--   Results (the division of the responses, their sorting and the intervals between them), Report
--     (`print_stats` at u128), FunctionReport (the report of a function), Errors (the counts of the
--     errors; `group_by` of the crate itertools is an interface with its laws).
--   Output: the lines that `print_stats` and `async_main` print.
--   Exchange: the bytes between faasmspeed and statmon.
--   The modules below these have their proofs.
-- Tests: runs of the programs on small inputs.
--
-- Bounds and fuel: the `while` of the generator has fuel, and ends within two turns for a positive
--   denominator below the largest i32. The loop of `with_event` over the CPUs follows the
--   host's answers, which end at its last CPU. Printing takes one more unit of fuel than the number,
--   which bounds its digits. Each other loop follows a
--   list. The lengths of lists are taken to fit a usize.
--
-- Not modelled: the sockets, files and timers themselves (a read is an answer of the host), the
--   warnings on standard error, `flock` on the file of the faasm monitor, f64 and its text, the HTTP
--   requests (their answers are choices of the steps; a test request that fails, or a monitoring host
--   that cannot be reached, ends a release build). Programs in other languages (memspeed, faultspeed,
--   pin-NearMAP/NearMAP.cpp), the scripts and the graphs are not modelled.
pub mod Base
pub mod Text
pub mod Statmon
pub mod NearMap
pub mod OffloadSim
pub mod Faasmspeed
pub mod Tests
