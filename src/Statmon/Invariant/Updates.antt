-- ===== src/Statmon/Invariant/Updates.antt =====
-- The invariant under the parts of `Stats::update`.
use ndp_auto_offload.Base.{
  ⊤, ℕ, out_of_bounds, List, [], ◌∷◌, All, Option, none, some, panic, arith, get_elem?,
}
use ndp_auto_offload.Base.Words.{Profile, as_i64}
use ndp_auto_offload.Statmon.Value.{FloatOps, StatValue}
use ndp_auto_offload.Statmon.Which.{WhichStat}
use ndp_auto_offload.Statmon.Host.{Reading, Round, Crates}
use ndp_auto_offload.Statmon.Cpu.{CpuStat}
use ndp_auto_offload.Statmon.Io.{IoStat}
use ndp_auto_offload.Statmon.Event.{EventStat}
use ndp_auto_offload.Statmon.Run.{
  Action, Run, ◌>>=◌, gets, lift, zoom, for_each, map_state, Leaves, returns, fails, panics,
}
use ndp_auto_offload.Statmon.Run.Keeps.{
  Keeps, Keeps-bind, Keeps-lift, Keeps-pure, Keeps-modify, keeps,
}
use ndp_auto_offload.Statmon.Stats.{Stats, put, seti, upd_loadavg}
use ndp_auto_offload.Statmon.Monitor.{
  store_slot, store_slots, cpu_slots, io_slots, upd_cpu, upd_event, upd_events, upd_io, read_all,
}
use ndp_auto_offload.Statmon.Table.{IsIntSlot, set_now-float-IsTable}
use ndp_auto_offload.Statmon.Invariant.{IsWellFormed, EventSlots}
use ndp_auto_offload.Statmon.Invariant.Files.{
  seti-Keeps, upd_meminfo-Keeps, upd_faasm-Keeps, upd_net-Keeps,
}

module _ {F C : Type 0} where
  -- Any method of the part of the state that holds the counters of `CpuStat` or `IoStat`.
  zoom_run-IsWellFormed :
      {T A : Type 0} (put : T → Stats F C → Stats F C) (s : Stats F C) (r : Run T A)
      → ((t : T) → IsWellFormed (put t s))
      → Leaves IsWellFormed (map_state (λ t. put t s) r)
  zoom_run-IsWellFormed put s (returns a t) k = k t
  zoom_run-IsWellFormed put s (fails e t) k = k t
  zoom_run-IsWellFormed put s (panics q) k = tt

  zoom-Keeps :
      {T A : Type 0} (get : Stats F C → T) (put : T → Stats F C → Stats F C) (m : Action T A)
      → ((t : T) (s : Stats F C) → IsWellFormed s → IsWellFormed (put t s))
      → Keeps IsWellFormed (zoom get put m)
  unfolding zoom
  zoom-Keeps get put m k = record {
    at = λ s h. zoom_run-IsWellFormed put s (m (get s)) (λ t. k t s h);
  }

  zoom_cpu-Keeps :
      (m : Action CpuStat ⊤)
      → Keeps (IsWellFormed {F = F} {C = C}) (zoom (λ s. s.cpu) (λ c s. record s { cpu = c }) m)
  zoom_cpu-Keeps m = zoom-Keeps _ _ m (λ t s h. h)

  zoom_io-Keeps :
      (m : Action IoStat ⊤)
      → Keeps (IsWellFormed {F = F} {C = C}) (zoom (λ s. s.io) (λ c s. record s { io = c }) m)
  zoom_io-Keeps m = zoom-Keeps _ _ m (λ t s h. h)

  found_slot-Keeps :
      (o : Option ℕ) (which : WhichStat)
      → IsIntSlot which
      → Keeps {A = ⊤}
          (IsWellFormed {F = F} {C = C})
          (elim o [ none ↦ lift (panic out_of_bounds) | some v ↦ seti which (as_i64 v) ])
  found_slot-Keeps none which h = Keeps-lift (panic out_of_bounds)
  found_slot-Keeps (some v) which h = seti-Keeps which (as_i64 v) h

  store_slot-Keeps :
      (totals : List ℕ) (slot : WhichStat × ℕ)
      → IsIntSlot slot.0
      → Keeps (IsWellFormed {F = F} {C = C}) (store_slot totals slot)
  unfolding store_slot
  store_slot-Keeps totals (which, i) h = found_slot-Keeps (get_elem? totals i) which h

  store_slots-Keeps :
      (totals : List ℕ) (slots : List (WhichStat × ℕ))
      → All (λ e. IsIntSlot e.0) slots
      → Keeps (IsWellFormed {F = F} {C = C}) (store_slots totals slots)
  unfolding store_slots for_each
  store_slots-Keeps totals [] h = Keeps-pure tt
  store_slots-Keeps totals (slot ∷ slots) h =
      Keeps-bind _ _ (store_slot-Keeps totals slot h.0) λ _. store_slots-Keeps totals slots h.1

  store_cpu-Keeps :
      (totals : List ℕ) → Keeps (IsWellFormed {F = F} {C = C}) (store_slots totals cpu_slots)
  store_cpu-Keeps totals = store_slots-Keeps totals cpu_slots (omega arith)

  store_io-Keeps :
      (totals : List ℕ) → Keeps (IsWellFormed {F = F} {C = C}) (store_slots totals io_slots)
  store_io-Keeps totals = store_slots-Keeps totals io_slots (omega arith)

  pub upd_cpu-Keeps :
      (p : Profile) (clk_tck : ℕ) (r : Reading)
      → Keeps (IsWellFormed {F = F} {C = C}) (upd_cpu p clk_tck r)
  unfolding upd_cpu
  upd_cpu-Keeps p clk_tck r = search (keeps, zoom_cpu-Keeps, store_cpu-Keeps, seti-Keeps) depth 12

  pub upd_io-Keeps :
      (p : Profile) (crates : Crates) (r : Reading)
      → Keeps (IsWellFormed {F = F} {C = C}) (upd_io p crates r)
  unfolding upd_io
  upd_io-Keeps p crates r = search (keeps, zoom_io-Keeps, store_io-Keeps) depth 8

  -- The counters' keys are integer slots, and no event is added or removed.
  events-Keeps :
      (p : Profile) (r : Round C) (events : EventStat C)
      → EventSlots events
      → Keeps (IsWellFormed {F = F} {C = C}) (for_each (upd_event p r) events)
  unfolding for_each upd_event
  events-Keeps p r [] h = Keeps-pure tt
  events-Keeps p r ((stat, pcs) ∷ events) h =
      Keeps-bind _ _ (search (keeps, seti-Keeps, h.0)) λ _. events-Keeps p r events h.1

  pub upd_events-Keeps :
      (p : Profile) (r : Round C) → Keeps (IsWellFormed {F = F} {C = C}) (upd_events p r)
  unfolding upd_events gets ◌>>=◌
  upd_events-Keeps p r = record { at = λ s h. (events-Keeps p r s.events h.1).at s h }

  put-float-Keeps :
      (v : F)
      → Keeps (IsWellFormed {F = F} {C = C}) (put WhichStat.load_avg1min (StatValue.float v))
  unfolding put
  put-float-Keeps v = Keeps-modify _ λ s h. (set_now-float-IsTable v s.stats h.0, h.1)

module _ {F C : Type 0} ⦃fl : FloatOps F⦄ where
  upd_loadavg-Keeps : (r : Reading) → Keeps (IsWellFormed {F = F} {C = C}) (upd_loadavg r)
  unfolding upd_loadavg
  upd_loadavg-Keeps r = search (keeps, put-float-Keeps) depth 9

  pub read_all-Keeps :
      (p : Profile) (crates : Crates) (r : Round C)
      → Keeps (IsWellFormed {F = F} {C = C}) (read_all p crates r)
  unfolding read_all
  read_all-Keeps p crates r =
      search
        (
          keeps, upd_loadavg-Keeps, upd_meminfo-Keeps, upd_faasm-Keeps, upd_net-Keeps,
          upd_cpu-Keeps, upd_events-Keeps, upd_io-Keeps,
        )
        depth 12
