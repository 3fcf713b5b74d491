-- ===== src/Statmon/Monitor.antt =====
-- `Stats::update`, `begin_range` and `end_range` of statmon/src/stats.rs.
pub mod Reads
pub mod Slots
use ndp_auto_offload.Base
use ndp_auto_offload.Base.{
  ⊤, ℕ, true, false, List, [], ◌∷◌, map, get_elem?, none, some, Outcome, ok, err, panic,
  unwrap_failed, out_of_bounds,
}
use ndp_auto_offload.Base.Words.{Profile, as_i64}
use ndp_auto_offload.Statmon.Value.{FloatOps}
use ndp_auto_offload.Statmon.Which.{WhichStat}
use ndp_auto_offload.Statmon.Stat.{Stat, reset, update_aggregate}
use ndp_auto_offload.Statmon.Host.{Reading, Round, Crates}
use ndp_auto_offload.Statmon.Cpu
use ndp_auto_offload.Statmon.Cpu.{CpuStat}
use ndp_auto_offload.Statmon.Io
use ndp_auto_offload.Statmon.Io.{IoStat}
use ndp_auto_offload.Statmon.Event
use ndp_auto_offload.Statmon.Run.{Action, ◌>>=◌, ◌>>◌, gets, modify, lift, when, zoom, for_each}
use ndp_auto_offload.Statmon.Stats.{Stats, seti, upd_loadavg}
use ndp_auto_offload.Statmon.Stats.Meminfo.{upd_meminfo}
use ndp_auto_offload.Statmon.Stats.Faasm.{upd_faasm}
use ndp_auto_offload.Statmon.Stats.Net.{upd_net}

-- `unwrap` of an error of the counters is a panic.
unfoldable pub unwrap : Outcome ⊤ → Outcome ⊤
unwrap (ok a) = ok a
unwrap (err e) = panic unwrap_failed
unwrap (panic q) = panic q

-- The slots of `CpuTotals` and of `IoTotals` that `update` copies, with their indices.
abbrev pub cpu_slots : List (WhichStat × ℕ)
cpu_slots =
    (WhichStat.cpums_user, 0)
    ∷ (WhichStat.cpums_nice, 1)
    ∷ (WhichStat.cpums_system, 2)
    ∷ (WhichStat.cpums_idle, 3)
    ∷ (WhichStat.cpums_iowait, 4)
    ∷ (WhichStat.cpums_irq, 5)
    ∷ (WhichStat.cpums_softirq, 6)
    ∷ []

abbrev pub io_slots : List (WhichStat × ℕ)
io_slots =
    (WhichStat.io_reads_completed, 0)
    ∷ (WhichStat.io_reads_merged, 1)
    ∷ (WhichStat.io_sectors_read, 2)
    ∷ (WhichStat.io_ms_reading, 3)
    ∷ (WhichStat.io_writes_completed, 4)
    ∷ (WhichStat.io_writes_merged, 5)
    ∷ (WhichStat.io_sectors_written, 6)
    ∷ (WhichStat.io_ms_writing, 7)
    ∷ []

module _ {F C : Type 0} where
  -- `seti(totals[i] as i64)`
  unfoldable pub store_slot : List ℕ → WhichStat × ℕ → Action (Stats F C) ⊤
  store_slot totals (which, i) = elim (get_elem? totals i) [
    | none ↦ lift (panic out_of_bounds)
    | some v ↦ seti which (as_i64 v)
  ]

  unfoldable pub store_slots : List ℕ → List (WhichStat × ℕ) → Action (Stats F C) ⊤
  store_slots totals slots = for_each (store_slot totals) slots

  unfoldable pub upd_cpu : Profile → ℕ → Reading → Action (Stats F C) ⊤
  upd_cpu p clk_tck r = do
    zoom (λ s. s.cpu) (λ c s. record s { cpu = c }) (Cpu.update p clk_tck r)
    cpu ← gets (λ s. s.cpu)
    cpums ← lift (Cpu.cpu_totals_ms p cpu)
    store_slots cpums cpu_slots
    switches ← lift (Cpu.context_switches p cpu)
    seti WhichStat.context_switches (as_i64 switches)
    seti WhichStat.procs_running (as_i64 cpu.procs_running)
    seti WhichStat.procs_blocked (as_i64 cpu.procs_io_blocked)

  unfoldable pub upd_event : Profile → Round C → WhichStat × List C → Action (Stats F C) ⊤
  upd_event p r (stat, events) = do val ← lift (Event.event_value p r events); seti stat val

  -- `EventStat::update`, on the map in the order of its iteration.
  unfoldable pub upd_events : Profile → Round C → Action (Stats F C) ⊤
  upd_events p r = do events ← gets (λ s. s.events); for_each (upd_event p r) events

  unfoldable pub upd_io : Profile → Crates → Reading → Action (Stats F C) ⊤
  upd_io p crates r = do
    zoom (λ s. s.io) (λ c s. record s { io = c }) (Io.update crates r)
    io ← gets (λ s. s.io)
    totals ← lift (Io.io_totals_ms p io)
    store_slots totals io_slots

module _ {F : Type 0} ⦃fl : FloatOps F⦄ where
  unfoldable pub aggregate_all : Profile → List (Stat F) → Outcome (List (Stat F))
  aggregate_all p [] = ok []
  aggregate_all p (s ∷ stats) =
      Base.◌>>=◌ (update_aggregate p s)
        λ t. Base.◌>>=◌ (aggregate_all p stats) λ rest. ok (t ∷ rest)

module _ {F C : Type 0} ⦃fl : FloatOps F⦄ where
  unfoldable pub aggregate : Profile → Action (Stats F C) ⊤
  aggregate p = do
    stats ← gets (λ s. s.stats)
    new_stats ← lift (aggregate_all p stats)
    modify (λ s. record s { stats = new_stats })

  unfoldable pub read_all : Profile → Crates → Round C → Action (Stats F C) ⊤
  read_all p crates r = do
    upd_loadavg r.loadavg
    upd_meminfo p r.meminfo
    upd_faasm crates r.faasm
    upd_net p r.net
    upd_cpu p r.clk_tck r.stat
    upd_events p r
    upd_io p crates r.diskstats

  unfoldable pub update : Profile → Crates → Round C → Action (Stats F C) ⊤
  update p crates r = do
    read_all p crates r
    in_range ← gets (λ s. s.in_range)
    when in_range (aggregate p)

  unfoldable pub begin_range : Round C → Action (Stats F C) ⊤
  begin_range r = do
    modify (λ s. record s { in_range = true })
    modify (λ s. record s { stats = map reset s.stats })
    events ← gets (λ s. s.events)
    lift (unwrap (Event.start r events))

  unfoldable pub end_range : Round C → Action (Stats F C) ⊤
  end_range r = do
    modify (λ s. record s { in_range = false })
    events ← gets (λ s. s.events)
    lift (unwrap (Event.stop r events))
