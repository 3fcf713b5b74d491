-- ===== src/Tests/Statmon.antt =====
-- The theorems on statmon/src at a concrete host: one CPU, one counter per event, no readable file.
use ndp_auto_offload.Base.{
  ℕ, ◌+◌, ◌≡◌, refl, List, [], ◌∷◌, map, Option, some, none, true, false, open_failed,
}
use ndp_auto_offload.Base.Int.{pos_part}
use ndp_auto_offload.Base.Words.{release}
use ndp_auto_offload.Text.{codes}
use ndp_auto_offload.Text.Print.{show_ℕ}
use ndp_auto_offload.Statmon.Value.{FloatOps}
use ndp_auto_offload.Statmon.Host.{Reading, Round, Crates}
use ndp_auto_offload.Statmon.Run.{returns, fails, gets, ◌>>=◌, lift, when}
use ndp_auto_offload.Statmon.Event.{PerfEvent}
use ndp_auto_offload.Statmon.Stats.{Stats, new, upd_loadavg, opening}
use ndp_auto_offload.Statmon.Monitor.{aggregate, update, read_all}
use ndp_auto_offload.Statmon.Server.{written, packet, handle_byte, dropped, byte, Reach, here, next}
use ndp_auto_offload.Statmon.Packet.{stat_packet}
use ndp_auto_offload.Statmon.Table.{aggregated}
use ndp_auto_offload.Statmon.Invariant.{IsWellFormed}
use ndp_auto_offload.Statmon.Invariant.Steps.{Reach-IsWellFormed}
use ndp_auto_offload.Statmon.Invariant.Start.{
  start_state, start_state-IsWellFormed, aggregate_total,
}

-- Whole numbers in place of floats.
instance abbrev pub whole_floats : FloatOps ℕ
whole_floats = record {
  zero = 0;
  min_value = 0;
  max_value = 1000;
  add = λ a b. a + b;
  min = λ a b. a;
  max = λ a b. b;
  div = λ a b. a;
  of_int = pos_part;
  parse = λ t. some 3;
  show = show_ℕ;
}

abbrev no_file : Reading
no_file = record { opens = false; first = none; text = none }

abbrev pub quiet : Round ℕ
quiet = record {
  loadavg = no_file;
  meminfo = no_file;
  faasm = no_file;
  net = no_file;
  stat = no_file;
  diskstats = no_file;
  clk_tck = 100;
  read_counter = λ c. some c;
  resets = λ c. true;
  starts = λ c. true;
  stops = λ c. true;
}

abbrev pub no_disks : Crates
no_disks = record { is_match = λ t. false; tuples = λ ts. [] }

-- The counter of an event exists on the first CPU only.
abbrev pub one_cpu : PerfEvent → List (Option ℕ)
one_cpu ev = some 7 ∷ none ∷ []

abbrev pub state : Stats ℕ ℕ
state = start_state one_cpu (codes "local_") (codes "eth0")

-- A command that opens a range fails at its first file, and the connection is dropped.
pub refused : handle_byte release no_disks quiet b'[' state ≡ fails open_failed state
unfolding handle_byte update read_all upd_loadavg opening gets ◌>>=◌ lift when start_state new
refused = refl

-- A packet is asked for.
asked :
    handle_byte release no_disks quiet b'?' state
    ≡ returns (written (stat_packet state.host_prefix state.stats)) state
unfolding handle_byte packet gets
asked = refl

two_steps : Reach release no_disks state state
two_steps =
    next (next here (dropped quiet b'[' open_failed state refused))
      (byte quiet b'?' (written (stat_packet state.host_prefix state.stats)) state asked)

aggregate_total_example :
    aggregate release state ≡ returns tt (record state { stats = map aggregated state.stats })
aggregate_total_example =
    aggregate_total one_cpu (codes "local_") (codes "eth0") no_disks state two_steps

Reach-IsWellFormed_example : IsWellFormed state
Reach-IsWellFormed_example =
    Reach-IsWellFormed (start_state-IsWellFormed ℕ one_cpu (codes "local_") (codes "eth0"))
      two_steps
