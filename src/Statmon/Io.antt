-- ===== src/Statmon/Io.antt =====
-- statmon/src/iostat.rs: the counters of /proc/diskstats.
pub mod Sizes
pub mod Overwrite
use ndp_auto_offload.Base.{
  ⊤, ℕ, Bool, true, false, ◌||◌, List, [], ◌∷◌, drop, replicate, get_elem?, Option, none, some,
  Outcome, ok, err, or_err, if◌then◌else◌, open_failed, read_failed, parse_failed,
}
use mathlib.Core.Option
use ndp_auto_offload.Base
use ndp_auto_offload.Base.Words.{Profile}
use ndp_auto_offload.Text.{Text, is_empty, split_ascii_whitespace, trimmed_lines}
use ndp_auto_offload.Text.Parse.{parse_u64}
use ndp_auto_offload.Statmon.Host.{Reading, Crates}
use ndp_auto_offload.Statmon.Fields.{store_fields, differences}
use ndp_auto_offload.Statmon.Run.{
  Action, ◌>>=◌, ◌>>◌, pure, gets, modify, lift, when, map_state, for_each,
}

pub record IoStat : Type 0 where
  -- `fp.is_some()`
  pub is_open : Bool
  pub io_totals : List ℕ
  pub io_totals_last : List ℕ

unfoldable pub new : IoStat
new = record { is_open = false; io_totals = replicate 8 0; io_totals_last = replicate 8 0 }

-- `let val: u64 = val.parse()?; *field = val`
unfoldable pub io_field : Text → Outcome ℕ
io_field s = or_err parse_failed (parse_u64 s)

-- The body of the loop over the lines: two numbers, the device's name, and its counters.
unfoldable pub read_line : Crates → Text → Action IoStat ⊤
read_line crates line c =
    let words = split_ascii_whitespace line in
    let devname = Option.get_or (get_elem? words 2) [] in
    if is_empty devname || crates.is_match devname
    then pure tt c
    else map_state (λ a. record c { io_totals = a })
        (store_fields io_field (drop 3 words) c.io_totals)

-- `update` behind the opening of the file.
unfoldable pub refresh : Crates → Option Text → Action IoStat ⊤
refresh crates text = do
  modify (λ c. record c { io_totals_last = c.io_totals })
  rdbuf ← lift (or_err read_failed text)
  for_each (read_line crates) (trimmed_lines rdbuf)

-- The file is opened once. The call of `update` inside `update` finds it open, so it is `refresh`.
unfoldable pub open_file : Crates → Reading → Action IoStat ⊤
open_file crates r = do
  lift (if r.opens then ok tt else err open_failed)
  modify (λ c. record c { is_open = true })
  refresh crates r.first

unfoldable pub update : Crates → Reading → Action IoStat ⊤
update crates r = do
  is_open ← gets (λ c. c.is_open)
  when (Base.not is_open) (open_file crates r)
  refresh crates r.text

unfoldable pub io_totals_ms : Profile → IoStat → Outcome (List ℕ)
io_totals_ms p c = differences p c.io_totals c.io_totals_last
