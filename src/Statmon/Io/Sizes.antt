-- ===== src/Statmon/Io/Sizes.antt =====
-- The sizes of the arrays of `IoStat` in statmon/src/iostat.rs, and the panics of its updates.
use ndp_auto_offload.Base.{◌≡◌, ◌∙◌, [], length, drop, get_elem?, Option, ◌||◌}
use mathlib.Core.Option
use ndp_auto_offload.Text.{Text, is_empty, split_ascii_whitespace}
use ndp_auto_offload.Statmon.Host.{Reading, Crates}
use ndp_auto_offload.Statmon.Fields.{store_fields}
use ndp_auto_offload.Statmon.Cpu.Sizes.{store_fields-EndsIn, if-IsCalm}
use ndp_auto_offload.Statmon.Io.{IoStat, io_field, read_line, refresh, open_file, update}
use ndp_auto_offload.Statmon.Run.Safe.{
  IsCalm, EndsIn-if, IsSafe, EndsIn-map_state, or_err-IsCalm, pure-IsSafe, modify-IsSafe,
  >>=-IsSafe, safe,
}

abbrev pub IsSized : IoStat → Type 0
IsSized c = (length c.io_totals ≡ 8) × (length c.io_totals_last ≡ 8)

io_field-IsCalm : (t : Text) → IsCalm (io_field t)
unfolding io_field
io_field-IsCalm t = or_err-IsCalm _ _

read_line-IsSafe : (crates : Crates) (line : Text) → IsSafe IsSized (read_line crates line)
unfolding read_line
read_line-IsSafe crates line = record {
  run = λ c h.
      let words = split_ascii_whitespace line in
      let devname = Option.get_or (get_elem? words 2) [] in
      EndsIn-if IsSized (is_empty devname || crates.is_match devname) _ _ ((pure-IsSafe tt).run c h)
        (EndsIn-map_state (λ a. length a ≡ length c.io_totals) IsSized
          (λ a. record c { io_totals = a }) (store_fields io_field (drop 3 words) c.io_totals)
          (store_fields-EndsIn io_field (drop 3 words) c.io_totals io_field-IsCalm)
          (λ a e. (e ∙ h.0, h.1)));
}

refresh-IsSafe : (crates : Crates) (text : Option Text) → IsSafe IsSized (refresh crates text)
unfolding refresh
refresh-IsSafe crates text =
    >>=-IsSafe _ _ (modify-IsSafe _ (λ c h. (h.0, h.0)))
      λ _. search (safe, read_line-IsSafe) depth 8

open_file-IsSafe : (crates : Crates) (r : Reading) → IsSafe IsSized (open_file crates r)
unfolding open_file
open_file-IsSafe crates r = search (safe, refresh-IsSafe, if-IsCalm) depth 10

-- An update ends without a panic, whatever the text of /proc/diskstats is, and both arrays keep their
-- eight entries.
pub update-IsSafe : (crates : Crates) (r : Reading) → IsSafe IsSized (update crates r)
unfolding update
update-IsSafe crates r = search (safe, refresh-IsSafe, open_file-IsSafe) depth 8
