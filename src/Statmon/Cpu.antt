-- ===== src/Statmon/Cpu.antt =====
-- statmon/src/cpustat.rs: the counters of /proc/stat.
pub mod Sizes
use ndp_auto_offload.Base.{
  ⊤, ℕ, ◌*◌, Bool, true, false, List, [], ◌∷◌, drop, replicate, Option, none, some, Outcome, ok,
  err, panic, or_err, if◌then◌else◌, open_failed, read_failed, parse_failed,
}
use ndp_auto_offload.Base
use ndp_auto_offload.Base.Words.{Profile, fit_uint, sub_uint, div_uint, u64_mod}
use ndp_auto_offload.Text.{
  Text, codes, trim, starts_with, strip_prefix, split_whitespace, trimmed_lines,
}
use ndp_auto_offload.Text.Parse.{parse_u64}
use ndp_auto_offload.Statmon.Host.{Reading}
use ndp_auto_offload.Statmon.Fields.{store_fields, differences}
use ndp_auto_offload.Statmon.Run.{
  Action, ◌>>=◌, ◌>>◌, pure, gets, modify, lift, when, map_state, for_each,
}

pub record CpuStat : Type 0 where
  -- `fp.is_some()`
  pub is_open : Bool
  pub ms_per_clk : ℕ
  pub cpu_totals : List ℕ
  pub cpu_totals_last : List ℕ
  pub context_switches_now : ℕ
  pub context_switches_last : ℕ
  pub procs_running : ℕ
  pub procs_io_blocked : ℕ

unfoldable pub new : CpuStat
new = record {
  is_open = false;
  ms_per_clk = 0;
  cpu_totals = replicate 10 0;
  cpu_totals_last = replicate 10 0;
  context_switches_now = 0;
  context_switches_last = 0;
  procs_running = 0;
  procs_io_blocked = 0;
}

unfoldable pub parse_val : Text → Outcome ℕ
parse_val s = or_err parse_failed (parse_u64 s)

-- `let val: u64 = val.parse()?; *field = val * self.ms_per_clk`
unfoldable pub clk_field : Profile → ℕ → Text → Outcome ℕ
clk_field p ms s = Base.◌>>=◌ (parse_val s) (λ val. fit_uint u64_mod p (val * ms))

-- The body of the loop over the lines.
unfoldable pub read_line : Profile → Text → Action CpuStat ⊤
read_line p line c =
    if starts_with (codes "cpu ") line
    then map_state (λ a. record c { cpu_totals = a })
        (store_fields (clk_field p c.ms_per_clk) (drop 1 (split_whitespace line)) c.cpu_totals)
    else elim (strip_prefix (codes "ctxt ") line) [
      | some valstr ↦
          (do
            val ← lift (parse_val (trim valstr))
            modify (λ c. record c { context_switches_now = val }))
            c
      | none ↦ elim (strip_prefix (codes "procs_running ") line) [
        | some valstr ↦
            (do
              val ← lift (parse_val (trim valstr))
              modify (λ c. record c { procs_running = val }))
              c
        | none ↦ elim (strip_prefix (codes "procs_blocked ") line) [
          | some valstr ↦
              (do
                val ← lift (parse_val (trim valstr))
                modify (λ c. record c { procs_io_blocked = val }))
                c
          | none ↦ pure tt c
        ]
      ]
    ]

-- `update` behind the opening of the file: the last totals are kept, and the text is read.
unfoldable pub refresh : Profile → Option Text → Action CpuStat ⊤
refresh p text = do
  modify (λ c. record c {
    cpu_totals_last = c.cpu_totals;
    context_switches_last = c.context_switches_now;
  })
  rdbuf ← lift (or_err read_failed text)
  for_each (read_line p) (trimmed_lines rdbuf)

-- The file is opened once. The call of `update` inside `update` finds it open, so it is `refresh`.
unfoldable pub open_file : Profile → ℕ → Reading → Action CpuStat ⊤
open_file p clk_tck r = do
  lift (if r.opens then ok tt else err open_failed)
  modify (λ c. record c { is_open = true })
  ms ← lift (div_uint 1000 clk_tck)
  modify (λ c. record c { ms_per_clk = ms })
  refresh p r.first

unfoldable pub update : Profile → ℕ → Reading → Action CpuStat ⊤
update p clk_tck r = do
  is_open ← gets (λ c. c.is_open)
  when (Base.not is_open) (open_file p clk_tck r)
  refresh p r.text

unfoldable pub cpu_totals_ms : Profile → CpuStat → Outcome (List ℕ)
cpu_totals_ms p c = differences p c.cpu_totals c.cpu_totals_last

unfoldable pub context_switches : Profile → CpuStat → Outcome ℕ
context_switches p c = sub_uint u64_mod p c.context_switches_now c.context_switches_last
