-- ===== src/Statmon/Event/Opened.antt =====
-- Which statistic reads which counters, by `EventStat::new` of statmon/src/eventstat.rs.
use ndp_auto_offload.Base.{
  ⊤, ◌≡◌, ◌≢◌, ◌==◌, refl, ◌∙◌, ap, arith, Bool, true, false, List, [], ◌∷◌, ◌++◌, map, All, Option,
  none, some, Bool-cases, inl, inr, if◌then◌else◌,
}
use ndp_auto_offload.Text.{is_empty}
use ndp_auto_offload.Statmon.Which.{WhichStat, as_usize}
use ndp_auto_offload.Statmon.Event.{
  PerfEvent, EventStat, event_table, insert, open_counters, with_event, with_events, new,
}

-- The event that a statistic counts, if it counts one.
unfoldable pub measured : WhichStat → Option PerfEvent
measured WhichStat.event_cycles = some PerfEvent.cpu_cycles
measured WhichStat.event_instructions = some PerfEvent.instructions
measured WhichStat.event_cache_accesses = some PerfEvent.cache_references
measured WhichStat.event_cache_misses = some PerfEvent.cache_misses
measured WhichStat.event_branches = some PerfEvent.branch_instructions
measured WhichStat.event_branch_misses = some PerfEvent.branch_misses
measured WhichStat.event_stalled_front_cycles = some PerfEvent.stalled_cycles_frontend
measured WhichStat.event_stalled_back_cycles = some PerfEvent.stalled_cycles_backend
measured WhichStat.event_ref_cycles = some PerfEvent.ref_cpu_cycles
measured WhichStat.event_page_faults = some PerfEvent.page_faults
measured WhichStat.event_page_faults_minor = some PerfEvent.page_faults_maj
measured WhichStat.event_page_faults_major = some PerfEvent.page_faults_min
measured WhichStat.event_cpu_migrations = some PerfEvent.cpu_migrations
measured WhichStat.event_l1d_accesses = some PerfEvent.l1d_read_access
measured WhichStat.event_l1d_misses = some PerfEvent.l1d_read_miss
measured WhichStat.event_l1i_accesses = some PerfEvent.l1i_read_access
measured WhichStat.event_l1i_misses = some PerfEvent.l1i_read_miss
measured WhichStat.event_dtlb_accesses = some PerfEvent.dtlb_read_access
measured WhichStat.event_dtlb_misses = some PerfEvent.dtlb_read_miss
measured WhichStat.event_itlb_accesses = some PerfEvent.itlb_read_access
measured WhichStat.event_itlb_misses = some PerfEvent.itlb_read_miss
measured _ = none

-- The entry of an association list at a statistic.
unfoldable pub lookup : {X : Type 0} → WhichStat → List (WhichStat × X) → Option X
lookup stat [] = none
lookup stat ((s, x) ∷ rest) = if as_usize s == as_usize stat then some x else lookup stat rest

table_measured : (stat : WhichStat) → lookup stat event_table ≡ measured stat
unfolding lookup measured as_usize
table_measured WhichStat.load_avg1min = refl
table_measured _ = refl

-- No entry of a table is at a statistic.
abbrev IsFresh : {X : Type 0} → WhichStat → List (WhichStat × X) → Type 0
IsFresh stat events = All (λ e. as_usize e.0 ≢ as_usize stat) events

-- No two entries of a table are at one statistic.
abbrev IsDistinct : {X : Type 0} → List (WhichStat × X) → Type 0
IsDistinct [] = ⊤
IsDistinct ((stat, x) ∷ table) = IsFresh stat table × IsDistinct table

event_table-IsDistinct : IsDistinct event_table
unfolding as_usize
event_table-IsDistinct = omega arith

lookup_fresh :
    {X : Type 0} (stat s : WhichStat) (table : List (WhichStat × X))
    → (as_usize stat == as_usize s) ≡ true
    → IsFresh stat table
    → lookup s table ≡ none
unfolding lookup
lookup_fresh stat s [] h k = refl
lookup_fresh stat s ((q, x) ∷ table) h k = ground (arith, lookup_fresh stat s table h k.1)

either_way : {A : Type 0} (b : Bool) (x : A) → (if b then x else x) ≡ x
either_way true x = refl
either_way false x = refl

module _ {C : Type 0} where
  lookup-insert :
      (stat s : WhichStat) (pcs : List C) (events : EventStat C)
      → lookup s (insert stat pcs events)
        ≡ (if as_usize stat == as_usize s then some pcs else lookup s events)
  unfolding insert lookup
  lookup-insert stat s pcs [] = refl
  lookup-insert stat s pcs ((q, old) ∷ events) = ground (arith, lookup-insert stat s pcs events)

  -- What the counters of an event, if there is one, leave at a statistic.
  counted : (PerfEvent → List (Option C)) → Option PerfEvent → Option (List C) → Option (List C)
  counted finish none old = old
  counted finish (some ev) old =
      if is_empty (open_counters (finish ev)) then old else some (open_counters (finish ev))

  lookup-with_event :
      (stat s : WhichStat) (cpus : List (Option C)) (events : EventStat C)
      → lookup s (with_event stat cpus events) ≡ (
          if is_empty (open_counters cpus)
          then lookup s events
          else if as_usize stat == as_usize s
          then some (open_counters cpus)
          else lookup s events)
  unfolding with_event
  lookup-with_event stat s cpus events = elim (Bool-cases (is_empty (open_counters cpus))) [
    | inl e ↦ rw e refl
    | inr e ↦ rw e (lookup-insert stat s (open_counters cpus) events)
  ]

  lookup-with_events :
      (finish : PerfEvent → List (Option C)) (s : WhichStat) (table : List (WhichStat × PerfEvent))
      (events : EventStat C)
      → IsDistinct table
      → lookup s (with_events finish table events)
        ≡ counted finish (lookup s table) (lookup s events)
  unfolding with_events lookup counted
  lookup-with_events finish s [] events d = refl
  lookup-with_events finish s ((stat, ev) ∷ table) events d =
      let rest = lookup-with_events finish s table (with_event stat (finish ev) events) d.1 in
      let one = lookup-with_event stat s (finish ev) events in
      elim (Bool-cases (as_usize stat == as_usize s)) [
        | inl e ↦ rw (e, rest, lookup_fresh stat s table e d.0, one) (rw e refl)
        | inr e ↦
            rw (e, rest, one)
              (rw (e, either_way (is_empty (open_counters (finish ev))) (lookup s events)) refl)
      ]

-- The CPUs end, or the next one fails to open.
abbrev pub FailsNext : {C : Type 0} → List (Option C) → Type 0
FailsNext [] = ⊤
FailsNext (none ∷ cpus) = ⊤
FailsNext (some pc ∷ cpus) = ⊥

open_counters_lem :
    {C : Type 0} (pcs : List C) (rest : List (Option C))
    → FailsNext rest
    → open_counters (map some pcs ++ rest) ≡ pcs
unfolding open_counters
open_counters_lem [] [] h = refl
open_counters_lem [] (none ∷ rest) h = refl
open_counters_lem [] (some pc ∷ rest) h = elim h [ ]
open_counters_lem (pc ∷ pcs) rest h = ap (λ l. pc ∷ l) (open_counters_lem pcs rest h)

-- If a statistic counts an event, and `finish` gives for the CPUs from 0 on the counters `pcs` of this
-- event and then fails, these are the counters of the statistic, or it has no entry if there are none.
-- The minor faults count the event of major ones, and the reverse. A statistic that counts no event has
-- no entry.
pub new-measured :
    {C : Type 0} (finish : PerfEvent → List (Option C)) (stat : WhichStat) (ev : PerfEvent)
    (pcs : List C) (rest : List (Option C))
    → measured stat ≡ some ev
    → finish ev ≡ map some pcs ++ rest
    → FailsNext rest
    → (lookup stat (new finish) ≡ (if is_empty pcs then none else some pcs))
      × (measured WhichStat.event_page_faults_minor ≡ some PerfEvent.page_faults_maj)
      × (measured WhichStat.event_page_faults_major ≡ some PerfEvent.page_faults_min)
      × ((s : WhichStat) → measured s ≡ none → lookup s (new finish) ≡ none)
unfolding new counted measured lookup
new-measured finish stat ev pcs rest counts answers fails =
    let all =
      λ (s : WhichStat). lookup-with_events finish s event_table [] event_table-IsDistinct in
    let found : lookup stat event_table ≡ some ev = table_measured stat ∙ counts in
    let there : open_counters (finish ev) ≡ pcs =
      ap open_counters answers ∙ open_counters_lem pcs rest fails in
    (
      all stat
          ∙ ap (λ o. counted finish o none) found
          ∙ ap (λ (l : List _). if is_empty l then none else some l) there,
      refl,
      refl,
      λ s e. all s ∙ ap (λ o. counted finish o none) (table_measured s ∙ e),
    )
