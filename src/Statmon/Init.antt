-- ===== src/Statmon/Init.antt =====
-- `STATS_INIT` of statmon/src/stats.rs: the table before the first update.
use ndp_auto_offload.Base.{List, [], ◌∷◌}
use ndp_auto_offload.Text.{codes}
use ndp_auto_offload.Statmon.Value.{FloatOps}
use ndp_auto_offload.Statmon.Stat.{Stat, int, float}

module _ {F : Type 0} ⦃fl : FloatOps F⦄ where
  unfoldable pub stats_init : List (Stat F)
  stats_init =
      float (codes "load_avg1")
      ∷ int (codes "mem_total")
      ∷ int (codes "mem_available")
      ∷ int (codes "mem_active")
      ∷ int (codes "mem_inactive")
      ∷ int (codes "mem_anonhp")
      ∷ int (codes "cpums_user")
      ∷ int (codes "cpums_nice")
      ∷ int (codes "cpums_system")
      ∷ int (codes "cpums_idle")
      ∷ int (codes "cpums_iowait")
      ∷ int (codes "cpums_irq")
      ∷ int (codes "cpums_softirq")
      ∷ int (codes "event_cycles")
      ∷ int (codes "event_instructions")
      ∷ int (codes "event_cache_accesses")
      ∷ int (codes "event_cache_misses")
      ∷ int (codes "event_branches")
      ∷ int (codes "event_branch_misses")
      ∷ int (codes "event_stalled_front_cycles")
      ∷ int (codes "event_stalled_back_cycles")
      ∷ int (codes "event_ref_cycles")
      ∷ int (codes "event_page_faults")
      ∷ int (codes "event_page_faults_minor")
      ∷ int (codes "event_page_faults_major")
      ∷ int (codes "event_cpu_migrations")
      ∷ int (codes "event_l1d_accesses")
      ∷ int (codes "event_l1d_misses")
      ∷ int (codes "event_l1i_accesses")
      ∷ int (codes "event_l1i_misses")
      ∷ int (codes "event_dtlb_accesses")
      ∷ int (codes "event_dtlb_misses")
      ∷ int (codes "event_itlb_accesses")
      ∷ int (codes "event_itlb_misses")
      ∷ int (codes "cswitches")
      ∷ int (codes "procs_running")
      ∷ int (codes "procs_blocked")
      ∷ int (codes "faasm_local_sched")
      ∷ int (codes "faasm_waiting_queued")
      ∷ int (codes "faasm_started")
      ∷ int (codes "faasm_suspended")
      ∷ int (codes "faasm_Active")
      ∷ int (codes "net_rx_bytes")
      ∷ int (codes "net_rx_errors")
      ∷ int (codes "net_tx_bytes")
      ∷ int (codes "net_tx_errors")
      ∷ int (codes "io_reads_completed")
      ∷ int (codes "io_reads_merged")
      ∷ int (codes "io_sectors_read")
      ∷ int (codes "io_ms_reading")
      ∷ int (codes "io_writes_completed")
      ∷ int (codes "io_writes_merged")
      ∷ int (codes "io_sectors_written")
      ∷ int (codes "io_ms_writing")
      ∷ []
