-- ===== src/Tests/Exchange.antt =====
-- An exchange of faasmspeed/src/main.rs with statmon/src/main.rs on a host whose files are open.
use ndp_auto_offload.Base.{ℕ, List, ◌≡◌, refl, true, false, [], ◌∷◌, drop, All}
use ndp_auto_offload.Base.Int.{pos}
use ndp_auto_offload.Base.Words.{release}
use ndp_auto_offload.Text.{Text, codes}
use ndp_auto_offload.Statmon.Value.{StatValue}
use ndp_auto_offload.Statmon.Stat.{Stat}
use ndp_auto_offload.Statmon.Run.{Run, returns, fails, panics}
use ndp_auto_offload.Statmon.Stats.{Stats}
use ndp_auto_offload.Statmon.Server.{written, handle_byte, conn_handler, timer, timer_tick}
use ndp_auto_offload.Statmon.Run.{◌>>=◌, pure, for_each}
use ndp_auto_offload.Statmon.Packet.{stat_packet}
use ndp_auto_offload.Statmon.Packet.Fields.{all_fields}
use ndp_auto_offload.Text.Words.{IsOneLine}
use ndp_auto_offload.Faasmspeed.Exchange.{monitor_bytes, read_line, monitor_exchange}
use ndp_auto_offload.Tests.Runs.{run_byte, run_tick, working}
use ndp_auto_offload.Tests.Statmon.{whole_floats, quiet, no_disks, state}

abbrev load : Stat ℕ
load = record {
  name = codes "load_avg1min";
  value_now = StatValue.float 3;
  value_min = StatValue.float 3;
  value_max = StatValue.float 3;
  value_sum = StatValue.float 0;
  value_cnt = pos 0;
}

abbrev before : Stats ℕ ℕ
before = record state {
  host_prefix = codes "local_";
  net_iface = codes "eth0:";
  open_loadavg = true;
  open_meminfo = true;
  open_net = true;
  open_faasm = true;
  stats = load ∷ [];
}

left : {S A : Type 0} → S → Run S A → S
left s (returns a t) = t
left s (fails e t) = t
left s (panics p) = s

unfoldable after_open : Stats ℕ ℕ
after_open = left before (handle_byte release no_disks working b'[' before)

abbrev zeros : List ℕ
zeros = 0 ∷ 0 ∷ 0 ∷ 0 ∷ 0 ∷ 0 ∷ 0 ∷ 0 ∷ []

-- The state one tick later.
abbrev after_ticks : Stats ℕ ℕ
after_ticks = record before {
  in_range = true;
  cpu = record before.cpu {
    is_open = true;
    ms_per_clk = 10;
    cpu_totals = 0 ∷ 0 ∷ zeros;
    cpu_totals_last = 0 ∷ 0 ∷ zeros;
  };
  stats =
      record load {
        value_min = StatValue.float 1000;
        value_max = StatValue.float 3;
        value_sum = StatValue.float 3;
        value_cnt = pos 1;
      }
      ∷ [];
  net_rx_ref = pos 1;
  net_tx_ref = pos 2;
  io = record before.io { is_open = true; io_totals = zeros; io_totals_last = zeros };
}

unfoldable after_close : Stats ℕ ℕ
after_close = left after_ticks (handle_byte release no_disks working b']' after_ticks)

abbrev last_packet : Text
last_packet = stat_packet after_close.host_prefix after_close.stats

opened : handle_byte release no_disks working b'[' before ≡ returns (written []) after_open
unfolding run_byte after_open after_close left
opened = refl

ticked : timer_tick release no_disks working after_open ≡ returns tt after_ticks
unfolding run_tick after_open after_close left
ticked = refl

ran : timer release no_disks (working ∷ []) after_open ≡ returns tt after_ticks
unfolding timer for_each ◌>>=◌ pure
ran = rw ticked refl

closed :
    handle_byte release no_disks working b']' after_ticks
    ≡ returns (written last_packet) after_close
unfolding run_byte after_open after_close left
closed = refl

one_line : All IsOneLine (all_fields after_close.host_prefix after_close.stats)
unfolding run_byte after_open after_close left
one_line = (
  refl,
  (refl, (refl, (refl, (refl, (refl, (refl, (refl, (refl, (refl, (refl, (refl, tt))))))))))),
)

monitor_exchange_example :
    (conn_handler release no_disks (monitor_bytes working working quiet) [] before
      ≡ conn_handler release no_disks (drop 1 (monitor_bytes working working quiet)) [] after_open)
    × (after_open.in_range ≡ true)
    × (after_ticks.in_range ≡ true)
    × (conn_handler release no_disks (drop 1 (monitor_bytes working working quiet)) [] after_ticks
        ≡ returns last_packet after_close)
    × (after_close.in_range ≡ false)
    × (read_line last_packet ≡ last_packet)
monitor_exchange_example =
    monitor_exchange release no_disks working working quiet (working ∷ []) before after_open
      after_ticks after_close (written []) (written last_packet) opened ran closed one_line
