-- ===== src/Statmon/Which.antt =====
-- `enum WhichStat` of statmon/src/stats.rs: the slots of the statistics table.
use ndp_auto_offload.Base.{ℕ, ◌<◌, arith}

pub data WhichStat : Type 0 where
  load_avg1min mem_total mem_available mem_active mem_inactive mem_anon_huge_pages : WhichStat
  cpums_user cpums_nice cpums_system cpums_idle cpums_iowait cpums_irq cpums_softirq : WhichStat
  event_cycles event_instructions event_cache_accesses event_cache_misses event_branches : WhichStat
  event_branch_misses event_stalled_front_cycles event_stalled_back_cycles event_ref_cycles :
      WhichStat
  event_page_faults event_page_faults_minor event_page_faults_major event_cpu_migrations : WhichStat
  event_l1d_accesses event_l1d_misses event_l1i_accesses event_l1i_misses event_dtlb_accesses :
      WhichStat
  event_dtlb_misses event_itlb_accesses event_itlb_misses context_switches procs_running : WhichStat
  procs_blocked faasm_local_sched faasm_waiting_queued faasm_started faasm_suspended : WhichStat
  faasm_active net_rx_bytes net_rx_errors net_tx_bytes net_tx_errors io_reads_completed : WhichStat
  io_reads_merged io_sectors_read io_ms_reading io_writes_completed io_writes_merged : WhichStat
  io_sectors_written io_ms_writing : WhichStat

-- `stat as usize`
unfoldable pub as_usize : WhichStat → ℕ
as_usize load_avg1min = 0
as_usize mem_total = 1
as_usize mem_available = 2
as_usize mem_active = 3
as_usize mem_inactive = 4
as_usize mem_anon_huge_pages = 5
as_usize cpums_user = 6
as_usize cpums_nice = 7
as_usize cpums_system = 8
as_usize cpums_idle = 9
as_usize cpums_iowait = 10
as_usize cpums_irq = 11
as_usize cpums_softirq = 12
as_usize event_cycles = 13
as_usize event_instructions = 14
as_usize event_cache_accesses = 15
as_usize event_cache_misses = 16
as_usize event_branches = 17
as_usize event_branch_misses = 18
as_usize event_stalled_front_cycles = 19
as_usize event_stalled_back_cycles = 20
as_usize event_ref_cycles = 21
as_usize event_page_faults = 22
as_usize event_page_faults_minor = 23
as_usize event_page_faults_major = 24
as_usize event_cpu_migrations = 25
as_usize event_l1d_accesses = 26
as_usize event_l1d_misses = 27
as_usize event_l1i_accesses = 28
as_usize event_l1i_misses = 29
as_usize event_dtlb_accesses = 30
as_usize event_dtlb_misses = 31
as_usize event_itlb_accesses = 32
as_usize event_itlb_misses = 33
as_usize context_switches = 34
as_usize procs_running = 35
as_usize procs_blocked = 36
as_usize faasm_local_sched = 37
as_usize faasm_waiting_queued = 38
as_usize faasm_started = 39
as_usize faasm_suspended = 40
as_usize faasm_active = 41
as_usize net_rx_bytes = 42
as_usize net_rx_errors = 43
as_usize net_tx_bytes = 44
as_usize net_tx_errors = 45
as_usize io_reads_completed = 46
as_usize io_reads_merged = 47
as_usize io_sectors_read = 48
as_usize io_ms_reading = 49
as_usize io_writes_completed = 50
as_usize io_writes_merged = 51
as_usize io_sectors_written = 52
as_usize io_ms_writing = 53

-- `WhichStat::TotalStatCount as usize`
abbrev pub total_stat_count : ℕ
total_stat_count = 54

pub as_usize-lt : (w : WhichStat) → as_usize w < total_stat_count
unfolding as_usize
as_usize-lt w = ground arith
