-- ===== src/Statmon/Invariant/Start.antt =====
-- The state that `async_main` of statmon/src/main.rs starts from, and what the invariant gives.
use ndp_auto_offload.Base.{◌≡◌, List, [], ◌∷◌, map, Option, arith, All}
use ndp_auto_offload.Base.Words.{release}
use ndp_auto_offload.Text.{Text}
use ndp_auto_offload.Statmon.Value.{FloatOps}
use ndp_auto_offload.Statmon.Which.{WhichStat}
use ndp_auto_offload.Statmon.Host.{Crates}
use ndp_auto_offload.Statmon.Event
use ndp_auto_offload.Statmon.Event.{
  EventStat, PerfEvent, event_table, insert, with_event, with_events, open_counters,
}
use ndp_auto_offload.Statmon.Run.{◌>>=◌, gets, lift, modify, returns}
use ndp_auto_offload.Statmon.Stats.{Stats, new}
use ndp_auto_offload.Statmon.Monitor.{aggregate}
use ndp_auto_offload.Statmon.Server.{Reach}
use ndp_auto_offload.Statmon.Table.{IsIntSlot, aggregated, aggregate_all-eq-map, stats_init-IsTable}
use ndp_auto_offload.Statmon.Invariant.{IsWellFormed, EventSlots}
use ndp_auto_offload.Statmon.Invariant.Steps.{Reach-IsWellFormed}

module _ {C : Type 0} where
  insert-EventSlots :
      (stat : WhichStat) (pcs : List C) (events : EventStat C)
      → IsIntSlot stat
      → EventSlots events
      → EventSlots (insert stat pcs events)
  unfolding insert
  insert-EventSlots stat pcs [] slot h = (slot, tt)
  insert-EventSlots stat pcs ((s, old) ∷ events) slot h =
      ground (arith, insert-EventSlots stat pcs events slot h.1)

  with_event-EventSlots :
      (stat : WhichStat) (finish : List (Option C)) (events : EventStat C)
      → IsIntSlot stat
      → EventSlots events
      → EventSlots (with_event stat finish events)
  unfolding with_event
  with_event-EventSlots stat finish events slot h =
      ground (arith, insert-EventSlots stat (open_counters finish) events slot h)

  with_events-EventSlots :
      (finish : PerfEvent → List (Option C)) (table : List (WhichStat × PerfEvent))
      (events : EventStat C)
      → All (λ e. IsIntSlot e.0) table
      → EventSlots events
      → EventSlots (with_events finish table events)
  unfolding with_events
  with_events-EventSlots finish [] events k h = h
  with_events-EventSlots finish ((stat, ev) ∷ table) events k h =
      with_events-EventSlots finish table (with_event stat (finish ev) events) k.1
        (with_event-EventSlots stat (finish ev) events k.0 h)

module _ {F C : Type 0} ⦃fl : FloatOps F⦄ where
  -- The first state, whatever counters the host opens.
  unfoldable pub start_state : (PerfEvent → List (Option C)) → Text → Text → Stats F C
  start_state finish host_prefix net_iface = record (new (Event.new finish)) {
    host_prefix = host_prefix;
    net_iface = net_iface;
  }

module _ (F : Type 0) {C : Type 0} ⦃fl : FloatOps F⦄ where
  pub start_state-IsWellFormed :
      (finish : PerfEvent → List (Option C)) (host_prefix net_iface : Text)
      → IsWellFormed (start_state {F = F} finish host_prefix net_iface)
  unfolding start_state new Event.new
  start_state-IsWellFormed finish host_prefix net_iface =
      (stats_init-IsTable F, with_events-EventSlots finish event_table [] (omega arith) tt)

module _ {F C : Type 0} ⦃fl : FloatOps F⦄ where
  -- In every state that ticks and commands of any number of connections reach from the start, with
  -- any answers of the host, a release build aggregates all statistics without a panic.
  pub aggregate_total :
      (finish : PerfEvent → List (Option C)) (host_prefix net_iface : Text) (crates : Crates)
      (t : Stats F C)
      → Reach release crates (start_state finish host_prefix net_iface) t
      → aggregate release t ≡ returns tt (record t { stats = map aggregated t.stats })
  unfolding aggregate ◌>>=◌ gets lift modify
  aggregate_total finish host_prefix net_iface crates t r = rw (
      aggregate_all-eq-map t.stats
        (Reach-IsWellFormed (start_state-IsWellFormed F finish host_prefix net_iface) r).0)
