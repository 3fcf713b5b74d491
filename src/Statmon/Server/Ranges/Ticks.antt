-- ===== src/Statmon/Server/Ranges/Ticks.antt =====
-- An update of statmon/src/stats.rs neither opens nor closes the range.
use ndp_auto_offload.Base.{◌≡◌, ⊤, Bool, List}
use ndp_auto_offload.Base.Words.{Profile}
use ndp_auto_offload.Statmon.Value.{FloatOps}
use ndp_auto_offload.Statmon.Host.{Round, Crates}
use ndp_auto_offload.Statmon.Run.{Run, Leaves, returns, fails, panics}
use ndp_auto_offload.Statmon.Run.Keeps.{Keeps, Keeps-for_each, keeps}
use ndp_auto_offload.Statmon.Stats.{Stats}
use ndp_auto_offload.Statmon.Monitor.{aggregate, read_all, update}
use ndp_auto_offload.Statmon.Monitor.Reads.{read_all-Keeps}
use ndp_auto_offload.Statmon.Server.{panic_on_error, timer_tick, timer}

module _ {F C : Type 0} ⦃fl : FloatOps F⦄ (b : Bool) where
  abbrev Flag : Stats F C → Type 0
  Flag s = s.in_range ≡ b

  Flag-read-Keeps :
      (p : Profile) (crates : Crates) (r : Round C)
      → Keeps {S = Stats F C} (Flag) (read_all p crates r)
  Flag-read-Keeps = read_all-Keeps (λ stats r. r ≡ b) (λ which v stats r h. h) (λ v stats r h. h)

  update-Keeps :
      (p : Profile) (crates : Crates) (r : Round C) → Keeps {S = Stats F C} Flag (update p crates r)
  unfolding update aggregate
  update-Keeps p crates r = search (keeps, Flag-read-Keeps) depth 10

  pub update-in_range :
      (p : Profile) (crates : Crates) (r : Round C) (s t : Stats F C)
      → update p crates r s ≡ returns tt t
      → s.in_range ≡ b
      → t.in_range ≡ b
  update-in_range p crates r s t run h = rw run at ((update-Keeps p crates r).at s h)

  on_error-Keeps : (r : Run (Stats F C) ⊤) → Leaves Flag r → Leaves Flag (panic_on_error r)
  on_error-Keeps (returns a s) h = h
  on_error-Keeps (fails e s) h = tt
  on_error-Keeps (panics q) h = tt

  timer-Keeps :
      (p : Profile) (crates : Crates) (rounds : List (Round C))
      → Keeps {S = Stats F C} Flag (timer p crates rounds)
  unfolding timer timer_tick
  timer-Keeps p crates rounds = Keeps-for_each _ rounds λ r. record {
    at = λ s h. on_error-Keeps (update p crates r s) ((update-Keeps p crates r).at s h);
  }

  -- The ticks between two commands.
  pub timer-in_range :
      (p : Profile) (crates : Crates) (rounds : List (Round C)) (s t : Stats F C)
      → timer p crates rounds s ≡ returns tt t
      → s.in_range ≡ b
      → t.in_range ≡ b
  timer-in_range p crates rounds s t run h = rw run at ((timer-Keeps p crates rounds).at s h)
