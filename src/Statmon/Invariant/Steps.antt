-- ===== src/Statmon/Invariant/Steps.antt =====
-- The invariant under every step of the server.
use ndp_auto_offload.Base.{ℕ, Bool, true, false, map, if◌then◌else◌}
use ndp_auto_offload.Base.Words.{Profile}
use ndp_auto_offload.Statmon.Value.{FloatOps}
use ndp_auto_offload.Statmon.Stat.{reset}
use ndp_auto_offload.Statmon.Host.{Round, Crates}
use ndp_auto_offload.Statmon.Run.{Action, ◌>>=◌, gets, modify}
use ndp_auto_offload.Statmon.Run.Keeps.{Keeps, Keeps-bind-lift, Keeps-modify, keeps}
use ndp_auto_offload.Statmon.Stats.{Stats}
use ndp_auto_offload.Statmon.Monitor.{aggregate_all, aggregate, update, begin_range, end_range}
use ndp_auto_offload.Statmon.Server.{
  handle_byte, packet, Step, Reach, tick, byte, dropped, here, next,
}
use ndp_auto_offload.Statmon.Table.{aggregate_all-IsTable, reset-IsTable}
use ndp_auto_offload.Statmon.Invariant.{IsWellFormed}
use ndp_auto_offload.Statmon.Invariant.Updates.{read_all-Keeps}

module _ {F C : Type 0} ⦃fl : FloatOps F⦄ where
  aggregate-Keeps : (p : Profile) → Keeps (IsWellFormed {F = F} {C = C}) (aggregate p)
  unfolding aggregate ◌>>=◌ gets
  aggregate-Keeps p = record {
    at = λ s h.
        (Keeps-bind-lift (aggregate_all p s.stats) _ λ new_stats e.
            Keeps-modify _ λ t k. (aggregate_all-IsTable p s.stats new_stats h.0 e, k.1)).at
          s h;
  }

  update-Keeps :
      (p : Profile) (crates : Crates) (r : Round C)
      → Keeps (IsWellFormed {F = F} {C = C}) (update p crates r)
  unfolding update
  update-Keeps p crates r = search (keeps, read_all-Keeps, aggregate-Keeps)

  reset-Keeps :
      Keeps (IsWellFormed {F = F} {C = C}) (modify (λ s. record s { stats = map reset s.stats }))
  reset-Keeps = Keeps-modify _ λ s h. (reset-IsTable s.stats h.0, h.1)

  begin_range-Keeps : (r : Round C) → Keeps (IsWellFormed {F = F} {C = C}) (begin_range r)
  unfolding begin_range
  begin_range-Keeps r = search (keeps, reset-Keeps) depth 8

  end_range-Keeps : (r : Round C) → Keeps (IsWellFormed {F = F} {C = C}) (end_range r)
  unfolding end_range
  end_range-Keeps r = search keeps depth 8

  packet-Keeps : Keeps (IsWellFormed {F = F} {C = C}) packet
  unfolding packet
  packet-Keeps = search keeps

  Keeps-if :
      {A : Type 0} (b : Bool) (m n : Action (Stats F C) A)
      → Keeps IsWellFormed m
      → Keeps IsWellFormed n
      → Keeps IsWellFormed (if b then m else n)
  Keeps-if true m n km kn = km
  Keeps-if false m n km kn = kn

  handle_byte-Keeps :
      (p : Profile) (crates : Crates) (r : Round C) (b : ℕ)
      → Keeps (IsWellFormed {F = F} {C = C}) (handle_byte p crates r b)
  unfolding handle_byte
  handle_byte-Keeps p crates r b =
      search (keeps, Keeps-if, update-Keeps, begin_range-Keeps, end_range-Keeps, packet-Keeps) depth
        12

  Step-IsWellFormed :
      {p : Profile} {crates : Crates} {s t : Stats F C}
      → Step p crates s t
      → IsWellFormed s
      → IsWellFormed t
  Step-IsWellFormed {p} {crates} {s} (tick r t e) h = rw e at ((update-Keeps p crates r).at s h)
  Step-IsWellFormed {p} {crates} {s} (byte r b reply t e) h =
      rw e at ((handle_byte-Keeps p crates r b).at s h)
  Step-IsWellFormed {p} {crates} {s} (dropped r b x t e) h =
      rw e at ((handle_byte-Keeps p crates r b).at s h)

  -- From a well-formed state, ticks and commands of any number of connections, in any order, in
  -- any build and with any answers of the host, keep the state well formed: the load average is a
  -- float, the other 53 statistics are integers, and every event counter writes to an integer.
  pub Reach-IsWellFormed :
      {p : Profile} {crates : Crates} {s t : Stats F C}
      → IsWellFormed s
      → Reach p crates s t
      → IsWellFormed t
  Reach-IsWellFormed h here = h
  Reach-IsWellFormed h (next r st) = Step-IsWellFormed st (Reach-IsWellFormed h r)
