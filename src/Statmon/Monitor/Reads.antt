-- ===== src/Statmon/Monitor/Reads.antt =====
-- The reading of the host's files in `Stats::update` of statmon/src/stats.rs: what it keeps of the
-- statistics.
use ndp_auto_offload.Base.{⊤, ℕ, Bool, List, Option, none, some, panic, out_of_bounds, get_elem?}
use ndp_auto_offload.Base.Int.{ℤ}
use ndp_auto_offload.Base.Words.{Profile, as_i64}
use ndp_auto_offload.Text.{Text}
use ndp_auto_offload.Statmon.Value.{FloatOps, StatValue}
use ndp_auto_offload.Statmon.Which.{WhichStat}
use ndp_auto_offload.Statmon.Host.{Reading, Round, Crates}
use ndp_auto_offload.Statmon.Run.{
  Action, Run, pure, lift, zoom, map_state, Leaves, returns, fails, panics,
}
use ndp_auto_offload.Statmon.Run.Keeps.{
  Keeps, Keeps-lift, Keeps-pure, Keeps-modify, Keeps-for_each, keeps,
}
use ndp_auto_offload.Statmon.Meminfo.{meminfo_stat}
use ndp_auto_offload.Statmon.Stats.{Stats, set_now, put, seti, upd_loadavg}
use ndp_auto_offload.Statmon.Stats.Meminfo.{store_meminfo, upd_meminfo}
use ndp_auto_offload.Statmon.Stats.Meminfo
use ndp_auto_offload.Statmon.Stats.Faasm.{read_field, read_fields, upd_faasm}
use ndp_auto_offload.Statmon.Stats.Net.{open_net_dev, read_counter, read_net_fields, upd_net}
use ndp_auto_offload.Statmon.Stat.{Stat}
use ndp_auto_offload.Statmon.Monitor.{
  store_slot, store_slots, upd_cpu, upd_event, upd_events, upd_io, read_all,
}

-- An invariant of the statistics and of the flag `in_range`, which an integer stored in any slot, and
-- a float stored as the load average, keep.
module _ {F C : Type 0} (P : List (Stat F) → Bool → Type 0)
    (kept : (which : WhichStat) (v : ℤ) (stats : List (Stat F)) (b : Bool)
      → P stats b
      → P (set_now which (StatValue.int v) stats) b) where
  abbrev pub Holds : Stats F C → Type 0
  Holds s = P s.stats s.in_range

  seti-Keeps : (which : WhichStat) (v : ℤ) → Keeps Holds (seti which v)
  unfolding seti put
  seti-Keeps which v = Keeps-modify _ λ s. kept which v s.stats s.in_range

  seti_option-Keeps :
      (o : Option WhichStat) (v : ℤ)
      → Keeps Holds (elim o [ some which ↦ seti which v | none ↦ pure tt ])
  seti_option-Keeps none v = Keeps-pure tt
  seti_option-Keeps (some which) v = seti-Keeps which v

  store_meminfo-Keeps : (pair : Text × ℤ) → Keeps Holds (store_meminfo pair)
  unfolding store_meminfo
  store_meminfo-Keeps (var, bytes) = seti_option-Keeps (meminfo_stat var) bytes

  upd_meminfo-Keeps : (p : Profile) (r : Reading) → Keeps Holds (upd_meminfo p r)
  unfolding upd_meminfo Meminfo.read_line
  upd_meminfo-Keeps p r = search (keeps, store_meminfo-Keeps) depth 8

  upd_faasm-Keeps : (crates : Crates) (r : Reading) → Keeps Holds (upd_faasm crates r)
  unfolding upd_faasm read_fields read_field
  upd_faasm-Keeps crates r = search (keeps, seti-Keeps) depth 12

  read_counter-Keeps :
      (p : Profile) (fields : List Text) (i : ℕ) (which : WhichStat) (ref : Stats F C → ℤ)
      (set_ref : ℤ → Stats F C → Stats F C)
      → ((v : ℤ) (s : Stats F C) → Holds s → Holds (set_ref v s))
      → Keeps Holds (read_counter p fields i which ref set_ref)
  unfolding read_counter
  read_counter-Keeps p fields i which ref set_ref k = search (keeps, seti-Keeps) depth 8

  read_net_fields-Keeps :
      (p : Profile) (fields : List Text) → Keeps Holds (read_net_fields p fields)
  unfolding read_net_fields
  read_net_fields-Keeps p fields = search (keeps, read_counter-Keeps) depth 8

  open_net_dev-Keeps : (r : Reading) → Keeps Holds (open_net_dev r)
  unfolding open_net_dev
  open_net_dev-Keeps r = search keeps depth 8

  upd_net-Keeps : (p : Profile) (r : Reading) → Keeps Holds (upd_net p r)
  unfolding upd_net
  upd_net-Keeps p r = search (keeps, open_net_dev-Keeps, read_net_fields-Keeps) depth 8

  zoom_run-Keeps :
      {T A : Type 0} (set_part : T → Stats F C → Stats F C) (s : Stats F C) (r : Run T A)
      → ((t : T) → Holds (set_part t s))
      → Leaves Holds (map_state (λ t. set_part t s) r)
  zoom_run-Keeps set_part s (returns a t) k = k t
  zoom_run-Keeps set_part s (fails e t) k = k t
  zoom_run-Keeps set_part s (panics q) k = tt

  zoom-Keeps :
      {T A : Type 0} (get : Stats F C → T) (set_part : T → Stats F C → Stats F C) (m : Action T A)
      → ((t : T) (s : Stats F C) → Holds s → Holds (set_part t s))
      → Keeps Holds (zoom get set_part m)
  unfolding zoom
  zoom-Keeps get set_part m k = record {
    at = λ s h. zoom_run-Keeps set_part s (m (get s)) (λ t. k t s h);
  }

  slot-Keeps :
      (o : Option ℕ) (which : WhichStat)
      → Keeps {A = ⊤} Holds
          (elim o [ none ↦ lift (panic out_of_bounds) | some v ↦ seti which (as_i64 v) ])
  slot-Keeps none which = Keeps-lift (panic out_of_bounds)
  slot-Keeps (some v) which = seti-Keeps which (as_i64 v)

  store_slots-Keeps :
      (totals : List ℕ) (slots : List (WhichStat × ℕ)) → Keeps Holds (store_slots totals slots)
  unfolding store_slots store_slot
  store_slots-Keeps totals slots =
      Keeps-for_each _ slots λ (which, i). slot-Keeps (get_elem? totals i) which

  upd_cpu-Keeps : (p : Profile) (clk_tck : ℕ) (r : Reading) → Keeps Holds (upd_cpu p clk_tck r)
  unfolding upd_cpu
  upd_cpu-Keeps p clk_tck r = search (keeps, zoom-Keeps, store_slots-Keeps, seti-Keeps) depth 12

  upd_io-Keeps : (p : Profile) (crates : Crates) (r : Reading) → Keeps Holds (upd_io p crates r)
  unfolding upd_io
  upd_io-Keeps p crates r = search (keeps, zoom-Keeps, store_slots-Keeps) depth 8

  upd_events-Keeps : (p : Profile) (r : Round C) → Keeps Holds (upd_events p r)
  unfolding upd_events upd_event
  upd_events-Keeps p r = search (keeps, seti-Keeps) depth 10

module _ {F C : Type 0} ⦃fl : FloatOps F⦄ (P : List (Stat F) → Bool → Type 0)
    (kept : (which : WhichStat) (v : ℤ) (stats : List (Stat F)) (b : Bool)
      → P stats b
      → P (set_now which (StatValue.int v) stats) b)
    (kept_load : (v : F) (stats : List (Stat F)) (b : Bool)
      → P stats b
      → P (set_now WhichStat.load_avg1min (StatValue.float v) stats) b) where
  put_load-Keeps :
      (v : F)
      → Keeps {S = Stats F C} (Holds P kept) (put WhichStat.load_avg1min (StatValue.float v))
  unfolding put
  put_load-Keeps v = Keeps-modify _ λ s. kept_load v s.stats s.in_range

  upd_loadavg-Keeps : (r : Reading) → Keeps {S = Stats F C} (Holds P kept) (upd_loadavg r)
  unfolding upd_loadavg
  upd_loadavg-Keeps r = search (keeps, put_load-Keeps) depth 9

  pub read_all-Keeps :
      (p : Profile) (crates : Crates) (r : Round C)
      → Keeps {S = Stats F C} (Holds P kept) (read_all p crates r)
  unfolding read_all
  read_all-Keeps p crates r =
      search
        (
          keeps,
          upd_loadavg-Keeps,
          upd_meminfo-Keeps P kept,
          upd_faasm-Keeps P kept,
          upd_net-Keeps P kept,
          upd_cpu-Keeps P kept,
          upd_events-Keeps P kept,
          upd_io-Keeps P kept,
        )
        depth 12
