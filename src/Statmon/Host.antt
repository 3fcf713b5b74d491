-- ===== src/Statmon/Host.antt =====
-- What the monitor asks of its host: the answers of the operating system in one round of
-- `Stats::update`, of the performance counters, and of the crates that the monitor calls.
use ndp_auto_offload.Base.{ℕ, Bool, Option, List}
use ndp_auto_offload.Text.{Text}

-- One file under /proc: whether `open` succeeds, and what each read of the whole file gives. The
-- first update of `CpuStat` and of `IoStat` reads its file twice; `first` is the earlier text.
-- `none` is a failed `read_to_string` or `seek`.
pub record Reading : Type 0 where
  pub opens : Bool
  pub first : Option Text
  pub text : Option Text

-- `C` is the type of the performance counters of the crate perfcnt.
pub record Round (C : Type 0) : Type 0 where
  pub loadavg : Reading
  pub meminfo : Reading
  pub faasm : Reading
  pub net : Reading
  pub stat : Reading
  pub diskstats : Reading
  -- `sysconf(_SC_CLK_TCK) as u64`
  pub clk_tck : ℕ
  -- `none` is an error of `PerfCounter::read`
  pub read_counter : C → Option ℕ
  pub resets : C → Bool
  pub starts : C → Bool
  pub stops : C → Bool

-- `RegexSet::is_match` for the set of `IoStat::new`, and `Itertools::tuples` at pairs.
pub record Crates : Type 0 where
  pub is_match : Text → Bool
  pub tuples : List Text → List (Text × Text)
