-- ===== src/Statmon/Event.antt =====
-- statmon/src/eventstat.rs: the hardware and software event counters. The crate perfcnt opens and
-- reads them; `C` is its type of counters.
pub mod Opened
use ndp_auto_offload.Base.{
  ⊤, ℕ, zero, suc, ◌+◌, ◌==◌, ◌&&◌, Bool, List, [], ◌∷◌, Option, none, some, Outcome, ok, err,
  ◌>>=◌, ◌>>◌, or_err, if◌then◌else◌, counter_failed,
}
use ndp_auto_offload.Base.Int.{ℤ}
use ndp_auto_offload.Base.Words.{Profile, fit_uint, u64_mod, as_i64}
use ndp_auto_offload.Text.{is_empty}
use ndp_auto_offload.Statmon.Which.{WhichStat, as_usize}
use ndp_auto_offload.Statmon.Host.{Round}

-- The events of the crate that the monitor counts.
pub data PerfEvent : Type 0 where
  cpu_cycles instructions cache_references cache_misses branch_instructions branch_misses :
      PerfEvent
  stalled_cycles_frontend stalled_cycles_backend ref_cpu_cycles : PerfEvent
  page_faults page_faults_maj page_faults_min cpu_migrations : PerfEvent
  l1d_read_access l1d_read_miss l1i_read_access l1i_read_miss : PerfEvent
  dtlb_read_access dtlb_read_miss itlb_read_access itlb_read_miss : PerfEvent

-- The `HashMap` of the counters, in the order of its iteration.
abbrev pub EventStat : Type 0 → Type 0
EventStat C = List (WhichStat × List C)

-- The events in the order of the chain of `with_event` in `EventStat::new`.
abbrev pub event_table : List (WhichStat × PerfEvent)
event_table =
    (WhichStat.event_cycles, cpu_cycles)
    ∷ (WhichStat.event_instructions, instructions)
    ∷ (WhichStat.event_cache_accesses, cache_references)
    ∷ (WhichStat.event_cache_misses, cache_misses)
    ∷ (WhichStat.event_branches, branch_instructions)
    ∷ (WhichStat.event_branch_misses, branch_misses)
    ∷ (WhichStat.event_stalled_front_cycles, stalled_cycles_frontend)
    ∷ (WhichStat.event_stalled_back_cycles, stalled_cycles_backend)
    ∷ (WhichStat.event_ref_cycles, ref_cpu_cycles)
    ∷ (WhichStat.event_page_faults, page_faults)
    ∷ (WhichStat.event_page_faults_minor, page_faults_maj)
    ∷ (WhichStat.event_page_faults_major, page_faults_min)
    ∷ (WhichStat.event_cpu_migrations, cpu_migrations)
    ∷ (WhichStat.event_l1d_accesses, l1d_read_access)
    ∷ (WhichStat.event_l1d_misses, l1d_read_miss)
    ∷ (WhichStat.event_l1i_accesses, l1i_read_access)
    ∷ (WhichStat.event_l1i_misses, l1i_read_miss)
    ∷ (WhichStat.event_dtlb_accesses, dtlb_read_access)
    ∷ (WhichStat.event_dtlb_misses, dtlb_read_miss)
    ∷ (WhichStat.event_itlb_accesses, itlb_read_access)
    ∷ (WhichStat.event_itlb_misses, itlb_read_miss)
    ∷ []

module _ {C : Type 0} where
  -- `HashMap::insert`
  unfoldable pub insert : WhichStat → List C → EventStat C → EventStat C
  insert stat pcs [] = (stat, pcs) ∷ []
  insert stat pcs ((s, old) ∷ events) =
      if as_usize s == as_usize stat then (s, pcs) ∷ events else (s, old) ∷ insert stat pcs events

  -- `for cpuid in 0..`, on what `finish` answers for the CPUs from 0 on: the loop ends at the first
  -- that fails, at the latest behind the last CPU of the host, which is the end of the list.
  unfoldable pub open_counters : List (Option C) → List C
  open_counters [] = []
  open_counters (none ∷ cpus) = []
  open_counters (some pc ∷ cpus) = pc ∷ open_counters cpus

  unfoldable pub with_event : WhichStat → List (Option C) → EventStat C → EventStat C
  with_event stat finish events =
      let pcs = open_counters finish in if is_empty pcs then events else insert stat pcs events

  unfoldable pub with_events :
      (PerfEvent → List (Option C)) → List (WhichStat × PerfEvent) → EventStat C → EventStat C
  with_events finish [] events = events
  with_events finish ((stat, ev) ∷ rest) events =
      with_events finish rest (with_event stat (finish ev) events)

  unfoldable pub new : (PerfEvent → List (Option C)) → EventStat C
  new finish = with_events finish event_table []

  -- One call of the crate for each counter; the first error ends the loop.
  unfoldable pub each_counter : (C → Bool) → List C → Outcome ⊤
  each_counter call [] = ok tt
  each_counter call (c ∷ cs) =
      let rest = each_counter call cs in if call c then rest else err counter_failed

  unfoldable pub start : Round C → EventStat C → Outcome ⊤
  start r [] = ok tt
  start r ((stat, events) ∷ rest) =
      each_counter (λ c. r.resets c && r.starts c) events >> start r rest

  unfoldable pub stop : Round C → EventStat C → Outcome ⊤
  stop r [] = ok tt
  stop r ((stat, events) ∷ rest) = each_counter r.stops events >> stop r rest

  -- The sum of the counters of all CPUs, in u64.
  unfoldable pub read_sum : Profile → Round C → ℕ → List C → Outcome ℕ
  read_sum p r val [] = ok val
  read_sum p r val (c ∷ cs) = do
    x ← or_err counter_failed (r.read_counter c)
    val' ← fit_uint u64_mod p (val + x)
    read_sum p r val' cs

  -- The value that one entry of the map gives to its statistic.
  unfoldable pub event_value : Profile → Round C → List C → Outcome ℤ
  event_value p r events = do val ← read_sum p r 0 events; ok (as_i64 val)
