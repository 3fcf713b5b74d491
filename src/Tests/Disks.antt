-- ===== src/Tests/Disks.antt =====
-- A line of /proc/diskstats behind that of another disk, for statmon/src/iostat.rs.
use ndp_auto_offload.Base.{ℕ, ◌≡◌, refl, ◌∷◌, [], List, take, replicate, true, arith}
use ndp_auto_offload.Text.{Text, codes, split_ascii_whitespace, split_when, is_ascii_whitespace}
use ndp_auto_offload.Text.Parse.{parse_u64}
use ndp_auto_offload.Statmon.Run.{returns}
use ndp_auto_offload.Statmon.Io.{IoStat, io_field, read_line}
use ndp_auto_offload.Statmon.Io.Overwrite.{read_line-take}
use ndp_auto_offload.Tests.Statmon.{no_disks}

abbrev second_disk : Text
second_disk = codes "8 16 sdb 11 12 13 14 15 16 17 18 0"

abbrev after_first : IoStat
after_first = record {
  is_open = true;
  io_totals = replicate 8 500;
  io_totals_last = replicate 8 400;
}

abbrev numbers : List ℕ
numbers = 11 ∷ 12 ∷ 13 ∷ 14 ∷ 15 ∷ 16 ∷ 17 ∷ 18 ∷ 0 ∷ []

read_line-take_example :
    read_line no_disks second_disk after_first
    ≡ returns tt (record after_first { io_totals = take 8 numbers })
read_line-take_example =
    read_line-take no_disks second_disk numbers after_first
      (unfold split_ascii_whitespace split_when is_ascii_whitespace in refl)
      (unfold split_ascii_whitespace split_when is_ascii_whitespace io_field parse_u64 in refl)
      (omega arith)
