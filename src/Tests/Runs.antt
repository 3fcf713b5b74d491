-- ===== src/Tests/Runs.antt =====
-- Runs of statmon/src/main.rs on a host whose files are open.
use ndp_auto_offload.Base.{⊤, ℕ, some, true, []}
use ndp_auto_offload.Base.Words.{release}
use ndp_auto_offload.Text.{Text, codes, strip_suffix}
use ndp_auto_offload.Base.Int.{◌*ℤ◌}
use ndp_auto_offload.Statmon.Meminfo.{parse_meminfo_line, strip_unit, strip_units, meminfo_stat}
use ndp_auto_offload.Statmon.Value.{StatValue}
use ndp_auto_offload.Statmon.Host.{Round, Reading}
use ndp_auto_offload.Statmon.Run.{Run}
use ndp_auto_offload.Statmon.Stats.{Stats}
use ndp_auto_offload.Statmon.Server.{Reply, packet, handle_byte, timer, timer_tick}
use ndp_auto_offload.Base.Words.{fit_i64, sub_uint, as_i64, fit_uint, div_uint}
use ndp_auto_offload.Base.Int.{◌-ℤ◌, ◌+ℤ◌}
use ndp_auto_offload.Text.{
  split_once, trimmed_lines, lines, trim, trim_start, trim_end, split_when, strip_prefix,
  starts_with, is_whitespace, split_whitespace, contains,
}
use ndp_auto_offload.Text.Parse.{parse_i64, parse_digits, parse_number}
use ndp_auto_offload.Statmon.Run.{◌>>=◌, gets, modify, lift, when, pure, for_each, zoom}
use ndp_auto_offload.Statmon.Monitor
use ndp_auto_offload.Statmon.Monitor.{
  unwrap, read_all, upd_cpu, upd_events, upd_event, upd_io, store_slots, store_slot, aggregate,
  aggregate_all, begin_range, end_range,
}
use ndp_auto_offload.Statmon.Stats
use ndp_auto_offload.Statmon.Stats.{upd_loadavg, read_text, put, set_now, seti}
use ndp_auto_offload.Statmon.Stats.Meminfo.{upd_meminfo, store_meminfo}
use ndp_auto_offload.Statmon.Stats.Meminfo
use ndp_auto_offload.Statmon.Stats.Faasm.{upd_faasm, read_fields}
use ndp_auto_offload.Statmon.Stats.Net.{
  upd_net, find_line, read_net_fields, read_counter, nth_field,
}
use ndp_auto_offload.Statmon.Cpu
use ndp_auto_offload.Statmon.Cpu.{context_switches}
use ndp_auto_offload.Statmon.Io
use ndp_auto_offload.Statmon.Event
use ndp_auto_offload.Statmon.Event.{event_value, read_sum, each_counter}
use ndp_auto_offload.Statmon.Fields.{differences}
use ndp_auto_offload.Statmon.Stat.{reset, update_aggregate}
use ndp_auto_offload.Statmon.Which.{as_usize}
use ndp_auto_offload.Statmon.Packet.{stat_fields, average}
use ndp_auto_offload.Statmon.Packet.Fields.{all_fields}
use ndp_auto_offload.Statmon.Value
use ndp_auto_offload.Text.Print.{show_ℤ, show_ℕ, show_digits}
use ndp_auto_offload.Statmon.Value.{zeroval, maxval, minval, set_add, set_min, set_max, valf}
use ndp_auto_offload.Statmon.Invariant.Start.{start_state}
use ndp_auto_offload.Tests.Statmon.{whole_floats, quiet, no_disks}

-- The runs, with all that they call unfolded.
unfoldable pub run_byte : Round ℕ → ℕ → Stats ℕ ℕ → Run (Stats ℕ ℕ) Reply
unfolding handle_byte Monitor.update read_all ◌>>=◌ gets modify lift when pure for_each zoom
    upd_loadavg read_text put set_now split_once upd_meminfo Meminfo.read_line parse_meminfo_line
    strip_unit strip_units strip_suffix meminfo_stat store_meminfo trim_end ◌*ℤ◌ trimmed_lines lines
    trim trim_start split_when upd_faasm read_fields upd_net find_line strip_prefix starts_with
    is_whitespace split_whitespace read_net_fields read_counter nth_field fit_i64 ◌-ℤ◌ parse_i64
    parse_digits parse_number seti upd_cpu Cpu.update Cpu.refresh Cpu.cpu_totals_ms differences
    sub_uint store_slots store_slot context_switches as_i64 upd_events upd_event event_value
    read_sum fit_uint upd_io Io.update Io.refresh Io.io_totals_ms aggregate aggregate_all
    begin_range reset zeroval maxval minval unwrap Event.start each_counter start_state Stats.new
    Cpu.new Io.new Event.new Cpu.open_file div_uint Event.with_events Event.with_event
    Event.open_counters Event.insert as_usize Io.open_file timer timer_tick end_range packet
    Event.stop all_fields stat_fields Value.show show_ℤ show_ℕ show_digits contains update_aggregate
    set_add set_min set_max valf average ◌+ℤ◌
run_byte r b s = handle_byte release no_disks r b s

unfoldable pub run_tick : Round ℕ → Stats ℕ ℕ → Run (Stats ℕ ℕ) ⊤
unfolding run_byte
run_tick r s = timer_tick release no_disks r s

abbrev pub file_of : Text → Reading
file_of t = record { opens = true; first = some t; text = some t }

abbrev pub working : Round ℕ
working = record quiet {
  loadavg = file_of (codes "3 4");
  meminfo = file_of (codes "MemTotal: 2 kB");
  faasm = file_of [];
  net = file_of (codes "eth0: 1 0 0 0 0 0 0 0 2 0 0 0 0 0 0 0");
  stat = file_of [];
  diskstats = file_of [];
}
