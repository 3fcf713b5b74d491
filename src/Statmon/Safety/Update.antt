-- ===== src/Statmon/Safety/Update.antt =====
-- The whole of `Stats::update` in statmon/src/stats.rs.
use ndp_auto_offload.Base.{
  ⊤, ℕ, ◌+◌, ◌<◌, ◌≡◌, refl, ◌∙◌, sym, List, ◌∷◌, [], ◌++◌, map, length, Option, ok, arith,
}
use ndp_auto_offload.Base.Words.{release, u64_mod}
use ndp_auto_offload.Text.{Text}
use ndp_auto_offload.Statmon.Value.{FloatOps}
use ndp_auto_offload.Statmon.Host.{Reading, Round, Crates}
use ndp_auto_offload.Statmon.Run.{Action, returns, ◌>>=◌, lift, gets, modify, for_each}
use ndp_auto_offload.Statmon.Run.Safe.{
  IsCalm, EndsIn, IsSafe, or_err-IsCalm, >>=-IsCalm, lift-IsSafe, gets-IsSafe, pure-IsSafe,
  when-IsSafe, >>=-IsSafe,
}
use ndp_auto_offload.Statmon.Cpu
use ndp_auto_offload.Statmon.Cpu.{CpuStat}
use ndp_auto_offload.Statmon.Cpu.Sizes as CpuSizes
use ndp_auto_offload.Statmon.Cpu.Sizes.{fit_uint-IsCalm, sub_uint-IsCalm, differences-length}
use ndp_auto_offload.Statmon.Io
use ndp_auto_offload.Statmon.Io.Sizes as IoSizes
use ndp_auto_offload.Statmon.Event
use ndp_auto_offload.Statmon.Event.{EventStat, PerfEvent}
use ndp_auto_offload.Statmon.Stats.{Stats, new}
use ndp_auto_offload.Statmon.Monitor.{
  cpu_slots, io_slots, upd_cpu, upd_event, upd_events, upd_io, aggregate, read_all, update,
}
use ndp_auto_offload.Statmon.Table.{aggregated, aggregated-IsTable, aggregate_all-eq-map}
use ndp_auto_offload.Statmon.Invariant.{EventSlots}
use ndp_auto_offload.Statmon.Safety.{Listing, IsListing, IsSound, IsListed}
use ndp_auto_offload.Statmon.Invariant.Start.{start_state, start_state-IsWellFormed}
use ndp_auto_offload.Statmon.Safety.Net.{upd_net-IsSafe, now_open-IsListed}
use ndp_auto_offload.Statmon.Safety.Parts.{
  seti-IsSafe, upd_meminfo-IsSafe, upd_faasm-IsSafe, upd_loadavg-IsSafe, zoom_cpu-IsSafe,
  zoom_io-IsSafe, store_slots-IsSafe,
}

cpu_totals_ms-length :
    (c : CpuStat)
    → CpuSizes.IsSized c
    → (ds : List ℕ) × (Cpu.cpu_totals_ms release c ≡ ok ds) × (length ds ≡ 10)
unfolding Cpu.cpu_totals_ms
cpu_totals_ms-length c h =
    let (ds, e, l) = differences-length c.cpu_totals c.cpu_totals_last (h.0 ∙ sym h.1) in
    (ds, e, l ∙ h.0)

io_totals_ms-length :
    (c : Io.IoStat)
    → IoSizes.IsSized c
    → (ds : List ℕ) × (Io.io_totals_ms release c ≡ ok ds) × (length ds ≡ 8)
unfolding Io.io_totals_ms
io_totals_ms-length c h =
    let (ds, e, l) = differences-length c.io_totals c.io_totals_last (h.0 ∙ sym h.1) in
    (ds, e, l ∙ h.0)

context_switches-IsCalm : (c : CpuStat) → IsCalm (Cpu.context_switches release c)
unfolding Cpu.context_switches
context_switches-IsCalm c = sub_uint-IsCalm u64_mod c.context_switches_now c.context_switches_last

module _ {C : Type 0} where
  read_sum-IsCalm : (r : Round C) (val : ℕ) (cs : List C) → IsCalm (Event.read_sum release r val cs)
  unfolding Event.read_sum
  read_sum-IsCalm r val [] = tt
  read_sum-IsCalm r val (c ∷ cs) =
      >>=-IsCalm _ _ (or_err-IsCalm _ (r.read_counter c))
        λ x. >>=-IsCalm _ _ (fit_uint-IsCalm u64_mod (val + x)) λ v. read_sum-IsCalm r v cs

  event_value-IsCalm : (r : Round C) (cs : List C) → IsCalm (Event.event_value release r cs)
  unfolding Event.event_value
  event_value-IsCalm r cs = >>=-IsCalm _ _ (read_sum-IsCalm r 0 cs) λ v. tt

module _ {F C : Type 0} (net : Listing) where
  -- The rest of a method may use what holds of the state.
  gets-with-IsSafe :
      {X A : Type 0} (f : Stats F C → X) (k : X → Action (Stats F C) A)
      → ((s : Stats F C) → IsSound net s → EndsIn (IsSound net) (k (f s) s))
      → IsSafe (IsSound net) (gets f >>= k)
  unfolding gets ◌>>=◌
  gets-with-IsSafe f k h = record { run = h }

  cpu_ms-IsSafe :
      (s : Stats F C) (k : List ℕ → Action (Stats F C) ⊤)
      → IsSound net s
      → ((ds : List ℕ) → length ds ≡ 10 → IsSafe (IsSound net) (k ds))
      → EndsIn (IsSound net) ((lift (Cpu.cpu_totals_ms release s.cpu) >>= k) s)
  unfolding lift ◌>>=◌
  cpu_ms-IsSafe s k h safe_k =
      let (ds, e, l) = cpu_totals_ms-length s.cpu h.2 in rw e ((safe_k ds l).run s h)

  io_ms-IsSafe :
      (s : Stats F C) (k : List ℕ → Action (Stats F C) ⊤)
      → IsSound net s
      → ((ds : List ℕ) → length ds ≡ 8 → IsSafe (IsSound net) (k ds))
      → EndsIn (IsSound net) ((lift (Io.io_totals_ms release s.io) >>= k) s)
  unfolding lift ◌>>=◌
  io_ms-IsSafe s k h safe_k =
      let (ds, e, l) = io_totals_ms-length s.io h.3 in rw e ((safe_k ds l).run s h)

  upd_io-IsSafe :
      (crates : Crates) (r : Reading)
      → IsSafe (IsSound {F = F} {C = C} net) (upd_io release crates r)
  unfolding upd_io
  upd_io-IsSafe crates r =
      >>=-IsSafe _ _ (zoom_io-IsSafe net _ (IoSizes.update-IsSafe crates r)) λ _.
        gets-with-IsSafe (λ s. s.io) _
          λ s h.
            io_ms-IsSafe s _ h
              λ ds l. store_slots-IsSafe net ds io_slots (omega arith) (rw l (omega arith))

  upd_cpu-IsSafe :
      (clk_tck : ℕ) (r : Reading)
      → 0 < clk_tck
      → IsSafe (IsSound {F = F} {C = C} net) (upd_cpu release clk_tck r)
  unfolding upd_cpu
  upd_cpu-IsSafe clk_tck r pos_clk =
      >>=-IsSafe _ _ (zoom_cpu-IsSafe net _ (CpuSizes.update-IsSafe clk_tck r pos_clk)) λ _.
        gets-with-IsSafe (λ s. s.cpu) _
          λ s h. cpu_ms-IsSafe s _ h λ ds l.
            >>=-IsSafe _ _ (store_slots-IsSafe net ds cpu_slots (omega arith) (rw l (omega arith)))
              λ _. >>=-IsSafe _ _ (lift-IsSafe _ (context_switches-IsCalm s.cpu)) λ switches.
                >>=-IsSafe _ _ (seti-IsSafe net _ _ tt)
                  λ _. >>=-IsSafe _ _ (seti-IsSafe net _ _ tt) λ _. seti-IsSafe net _ _ tt

  events-IsSafe :
      (r : Round C) (events : EventStat C)
      → EventSlots events
      → IsSafe (IsSound {F = F} {C = C} net) (for_each (upd_event release r) events)
  unfolding for_each upd_event
  events-IsSafe r [] h = pure-IsSafe tt
  events-IsSafe r ((stat, pcs) ∷ events) h =
      >>=-IsSafe _ _
        (>>=-IsSafe _ _ (lift-IsSafe _ (event_value-IsCalm r pcs)) λ v. seti-IsSafe net stat v h.0)
        λ _. events-IsSafe r events h.1

  upd_events-IsSafe : (r : Round C) → IsSafe (IsSound {F = F} {C = C} net) (upd_events release r)
  unfolding upd_events
  upd_events-IsSafe r =
      gets-with-IsSafe (λ s. s.events) _ λ s h. (events-IsSafe r s.events h.1).run s h

module _ {F C : Type 0} ⦃fl : FloatOps F⦄ (net : Listing) where
  aggregate-eq :
      (s : Stats F C)
      → IsSound net s
      → aggregate release s ≡ returns tt (record s { stats = map aggregated s.stats })
  unfolding aggregate ◌>>=◌ gets lift modify
  aggregate-eq s h = rw (aggregate_all-eq-map s.stats h.0) refl

  aggregate-IsSafe : IsSafe (IsSound {F = F} {C = C} net) (aggregate release)
  aggregate-IsSafe = record {
    run = λ s h. rw (aggregate-eq s h) (aggregated-IsTable s.stats h.0, h.1, h.2, h.3, h.4);
  }

module _ {F C : Type 0} ⦃fl : FloatOps F⦄ where
  pub listed-IsSafe :
      (net : Listing) (crates : Crates) (r : Round C)
      → 0 < r.clk_tck
      → IsListing net r.net.text
      → IsSafe (IsSound {F = F} {C = C} net) (update release crates r)
  unfolding update read_all
  listed-IsSafe net crates r clk l =
      let reads = >>=-IsSafe _ _ (upd_loadavg-IsSafe net r.loadavg) λ _.
        >>=-IsSafe _ _ (upd_meminfo-IsSafe net r.meminfo) λ _.
          >>=-IsSafe _ _ (upd_faasm-IsSafe net crates r.faasm) λ _.
            >>=-IsSafe _ _ (upd_net-IsSafe net r.net l) λ _.
              >>=-IsSafe _ _ (upd_cpu-IsSafe net r.clk_tck r.stat clk) λ _.
                >>=-IsSafe _ _ (upd_events-IsSafe net r)
                  λ _. upd_io-IsSafe net crates r.diskstats in
      >>=-IsSafe _ _ reads λ _.
        >>=-IsSafe _ _ (gets-IsSafe (λ s. s.in_range))
          λ in_range. when-IsSafe in_range (aggregate release) (aggregate-IsSafe net)

  -- In a release build, from a sound state, on a host whose clock has ticks and whose text of
  -- /proc/net/dev has a line of 17 words for the interface: an update ends without a panic,
  -- whatever the other files and the counters are, and it leaves a sound state, after an error
  -- too.
  pub update-IsSafe :
      (crates : Crates) (r : Round C) (s : Stats F C)
      → 0 < r.clk_tck
      → IsSound (IsListed r.net.text) s
      → EndsIn (IsSound (IsListed r.net.text)) (update release crates r s)
  update-IsSafe crates r s clk h =
      (listed-IsSafe (IsListed r.net.text) crates r clk
          (record { opened = now_open-IsListed r.net.text; listed = λ iface start k. k })).run
        s h

-- The first state is sound where the interface is listed, its colon behind its name.
pub start_state-IsSound :
    (F : Type 0) {C : Type 0} ⦃fl : FloatOps F⦄ (finish : PerfEvent → List (Option C))
    (host_prefix net_iface : Text) (net : Listing)
    → net net_iface (net_iface ++ b':' ∷ [])
    → IsSound net (start_state {F = F} finish host_prefix net_iface)
unfolding start_state new Cpu.new Io.new
start_state-IsSound F finish host_prefix net_iface net h =
    let formed = start_state-IsWellFormed F finish host_prefix net_iface in
    (formed.0, formed.1, (refl, refl), (refl, refl), h)
