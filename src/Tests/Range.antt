-- ===== src/Tests/Range.antt =====
-- A range of statmon/src/main.rs at the statistic of the total memory: one tick with 1 kB in the range,
-- 3 kB at its end, and a tick with 2 kB behind it.
use ndp_auto_offload.Base.{
  ℕ, ◌≡◌, refl, Bool, true, false, List, [], ◌∷◌, ◌++◌, get_elem?, some, arith, All, length, drop,
  ◌<◌, ◌^◌, ◌*◌,
}
use ndp_auto_offload.Base.Int.{ℤ, pos}
use ndp_auto_offload.Base.Words.{release, IsI64, i64_max, i64_min}
use ndp_auto_offload.Text.{Text, codes, contains}
use ndp_auto_offload.Text.Words.{IsOneLine, show_ℕ-without}
use ndp_auto_offload.Statmon.Packet.Plain.{IsPlain}
use ndp_auto_offload.Text.Commas.{split_commas, show_ℕ-IsField}
use ndp_auto_offload.Text.Print.{show_ℕ}
use ndp_auto_offload.Statmon.Value.{StatValue}
use ndp_auto_offload.Statmon.Stat.{Stat}
use ndp_auto_offload.Statmon.Stats.{Stats}
use ndp_auto_offload.Statmon.Host.{Round}
use ndp_auto_offload.Statmon.Which.{WhichStat, as_usize}
use ndp_auto_offload.Statmon.Run.{returns, for_each, ◌>>=◌, pure}
use ndp_auto_offload.Statmon.Packet.{stat_packet}
use ndp_auto_offload.Statmon.Packet.Measured.{IsReport, range-IsReport}
use ndp_auto_offload.Statmon.Range.{IsRange}
use ndp_auto_offload.Statmon.Invariant.Start.{start_state}
use ndp_auto_offload.Statmon.Server.{Reply, written, handle_byte, timer, timer_tick}
use ndp_auto_offload.Statmon.Server.Ranges.Observed.{states}
use ndp_auto_offload.Statmon.Server.Ranges.Whole.{range_values, whole-IsRange}
use ndp_auto_offload.Tests.Runs.{run_byte, run_tick, working, file_of}
use ndp_auto_offload.Tests.Statmon.{state, no_disks, whole_floats}

abbrev memory : ℤ → ℤ → ℤ → ℤ → ℤ → Stat ℕ
memory now low high sum cnt = record {
  name = codes "mem_total";
  value_now = StatValue.int now;
  value_min = StatValue.int low;
  value_max = StatValue.int high;
  value_sum = StatValue.int sum;
  value_cnt = cnt;
}

abbrev load : ℕ → ℕ → ℤ → Stat ℕ
load high sum cnt = record {
  name = codes "load_avg1min";
  value_now = StatValue.float 3;
  value_min = StatValue.float 1000;
  value_max = StatValue.float high;
  value_sum = StatValue.float sum;
  value_cnt = cnt;
}

abbrev zeros : List ℕ
zeros = 0 ∷ 0 ∷ 0 ∷ 0 ∷ 0 ∷ 0 ∷ 0 ∷ 0 ∷ []

-- A state with two statistics, between updates that change nothing else.
abbrev with_stats : Bool → Stat ℕ → Stat ℕ → Stats ℕ ℕ
with_stats in_range l m = record state {
  in_range = in_range;
  net_iface = codes "eth0:";
  open_loadavg = true;
  open_meminfo = true;
  open_net = true;
  open_faasm = true;
  cpu = record state.cpu {
    is_open = true;
    ms_per_clk = 10;
    cpu_totals = 0 ∷ 0 ∷ zeros;
    cpu_totals_last = 0 ∷ 0 ∷ zeros;
  };
  stats = l ∷ m ∷ [];
  net_rx_ref = pos 1;
  net_tx_ref = pos 2;
  io = record state.io { is_open = true; io_totals = zeros; io_totals_last = zeros };
}

abbrev before : Stats ℕ ℕ
before = with_stats false (load 0 0 (pos 0)) (memory (pos 5) (pos 0) (pos 0) (pos 0) (pos 0))

abbrev after_open : Stats ℕ ℕ
after_open = with_stats true (load 0 0 (pos 0)) (memory (pos 2048) i64_max i64_min (pos 0) (pos 0))

abbrev after_tick : Stats ℕ ℕ
after_tick =
    with_stats true (load 3 3 (pos 1)) (memory (pos 1024) (pos 1024) (pos 1024) (pos 1024) (pos 1))

abbrev after_close : Stats ℕ ℕ
after_close =
    with_stats false (load 3 6 (pos 2)) (memory (pos 3072) (pos 1024) (pos 3072) (pos 4096) (pos 2))

abbrev at_the_end : Stats ℕ ℕ
at_the_end =
    with_stats false (load 3 6 (pos 2)) (memory (pos 2048) (pos 1024) (pos 3072) (pos 4096) (pos 2))

-- A round in which the host has so much memory.
abbrev round_with : ℕ → Round ℕ
round_with kb = record working {
  meminfo = file_of (codes "MemTotal: " ++ show_ℕ kb ++ codes " kB");
}

opened : handle_byte release no_disks (round_with 2) b'[' before ≡ returns (written []) after_open
unfolding run_byte show_ℕ
opened = refl

ticked : timer_tick release no_disks (round_with 1) after_open ≡ returns tt after_tick
unfolding run_tick show_ℕ
ticked = refl

abbrev sent : Reply
sent = written (stat_packet after_close.host_prefix after_close.stats)

closed : handle_byte release no_disks (round_with 3) b']' after_tick ≡ returns sent after_close
unfolding run_byte show_ℕ
closed = refl

idled : timer_tick release no_disks (round_with 2) after_close ≡ returns tt at_the_end
unfolding run_tick show_ℕ
idled = refl

ran : timer release no_disks (round_with 1 ∷ []) after_open ≡ returns tt after_tick
unfolding timer for_each ◌>>=◌ pure
ran = rw ticked refl

ran_on : timer release no_disks (round_with 2 ∷ []) after_close ≡ returns tt at_the_end
unfolding timer for_each ◌>>=◌ pure
ran_on = rw idled refl

values :
    range_values release no_disks WhichStat.mem_total (round_with 1 ∷ []) after_open after_close
    ≡ pos 1024 ∷ pos 3072 ∷ []
unfolding states as_usize
values = rw ticked refl

small_values :
    All IsI64
      (range_values release no_disks WhichStat.mem_total (round_with 1 ∷ []) after_open after_close)
small_values = rw values (omega arith)

few :
    length
      (range_values release no_disks WhichStat.mem_total (round_with 1 ∷ []) after_open after_close)
    < 2 ^ 63
few = rw values (omega arith)

whole-IsRange_example :
    (y : Stat ℕ) × (get_elem? at_the_end.stats (as_usize WhichStat.mem_total) ≡ some y)
    × IsRange
        (range_values release no_disks WhichStat.mem_total
          (round_with 1 ∷ [])
          after_open
          after_close)
        y
unfolding as_usize
whole-IsRange_example =
    whole-IsRange no_disks (round_with 2) (round_with 3) (round_with 1 ∷ []) (round_with 2 ∷ [])
      before after_open after_tick after_close at_the_end (written []) sent WhichStat.mem_total
      (memory (pos 5) (pos 0) (pos 0) (pos 0) (pos 0)) tt refl tt opened ran closed ran_on
      small_values few

IsPlain-names : All (λ z. IsPlain z.name) after_close.stats
unfolding contains
IsPlain-names = ((refl, refl), ((refl, refl), tt))

IsPlain-prefix : IsPlain after_close.host_prefix
unfolding contains start_state
IsPlain-prefix = (refl, refl)

IsPlain-number : (n : ℕ) → IsPlain (show_ℕ n)
IsPlain-number n = (show_ℕ-IsField n, show_ℕ-without b'\n' n refl)

range-IsReport_example :
    (body : Text) × (sent ≡ written (body ++ b'\n' ∷ []))
    × IsOneLine body
    × IsReport
        (range_values release no_disks WhichStat.mem_total
          (round_with 1 ∷ [])
          after_open
          after_close)
        (drop (12 * as_usize WhichStat.mem_total) (split_commas body))
unfolding as_usize
range-IsReport_example =
    range-IsReport no_disks (round_with 2) (round_with 3) (round_with 1 ∷ []) before after_open
      after_tick after_close (written []) sent WhichStat.mem_total
      (memory (pos 5) (pos 0) (pos 0) (pos 0) (pos 0)) tt refl tt opened ran closed small_values few
      IsPlain-prefix IsPlain-names IsPlain-number
