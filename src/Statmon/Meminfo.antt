-- ===== src/Statmon/Meminfo.antt =====
-- `parse_meminfo_line` of statmon/src/stats.rs, and the statistics that its callers store.
pub mod Written
use ndp_auto_offload.Base.{
  ◌*◌, Option, none, some, Outcome, ok, ◌>>=◌, or_err, parse_failed, split_failed, if◌then◌else◌,
}
use ndp_auto_offload.Base.Int.{ℤ, pos, ◌*ℤ◌}
use ndp_auto_offload.Base.Words.{Profile, fit_i64}
use ndp_auto_offload.Text.{Text, codes, text_eq, trim, trim_end, strip_suffix, split_once}
use ndp_auto_offload.Text.Parse.{parse_i64}
use ndp_auto_offload.Statmon.Which.{WhichStat}

-- A suffix that is there is cut off, and its factor goes into the multiplier. The four factors
-- together are 2 ^ 60, so the multiplier never overflows.
unfoldable pub strip_unit : Text → ℤ → Text × ℤ → Text × ℤ
strip_unit unit factor (vval, multiplier) = elim (strip_suffix unit vval) [
  | some s ↦ (trim_end s, multiplier *ℤ factor)
  | none ↦ (vval, multiplier)
]

unfoldable pub strip_units : Text → Text × ℤ
strip_units vval = strip_unit (codes "B") (pos 1) (
    strip_unit (codes "GB") (pos (1024 * 1024 * 1024)) (
      strip_unit (codes "MB") (pos (1024 * 1024))
        (strip_unit (codes "kB") (pos 1024) (trim vval, pos 1))))

-- line -> (var, bytes)
unfoldable pub parse_meminfo_line : Profile → Text → Outcome (Text × ℤ)
parse_meminfo_line p line = do
  pair ← or_err split_failed (split_once b':' line)
  let value = strip_units pair.1
  vnum ← or_err parse_failed (parse_i64 value.0)
  bytes ← fit_i64 p (vnum *ℤ value.1)
  ok (trim pair.0, bytes)

-- The `match var`.
unfoldable pub meminfo_stat : Text → Option WhichStat
meminfo_stat var =
    if text_eq var (codes "MemTotal")
    then some WhichStat.mem_total
    else if text_eq var (codes "MemAvailable")
    then some WhichStat.mem_available
    else if text_eq var (codes "Active")
    then some WhichStat.mem_active
    else if text_eq var (codes "Inactive")
    then some WhichStat.mem_inactive
    else if text_eq var (codes "AnonHugePages")
    then some WhichStat.mem_anon_huge_pages
    else none
