-- ===== src/Tests/Safety.antt =====
-- The daemon of statmon/src/main.rs on a host that lists the interface.
use ndp_auto_offload.Base.{ℕ, open_failed, refl, some, none, true, arith}
use ndp_auto_offload.Base.Words.{release}
use ndp_auto_offload.Text.{
  Text, codes, trim, trim_start, trim_end, lines, split_when, split_whitespace, strip_prefix,
  starts_with, is_whitespace,
}
use ndp_auto_offload.Statmon.Host.{Round}
use ndp_auto_offload.Statmon.Run.Safe.{EndsIn}
use ndp_auto_offload.Statmon.Stats.Net.{find_line}
use ndp_auto_offload.Statmon.Monitor.{update}
use ndp_auto_offload.Statmon.Safety.{IsSound}
use ndp_auto_offload.Statmon.Safety.Daemon.{HasLine, IsFriendly, Named, Reach-IsSafe}
use ndp_auto_offload.Statmon.Server.{Reach, here, next, dropped, handle_byte}
use ndp_auto_offload.Tests.Statmon.{whole_floats, quiet, no_disks, one_cpu, state, refused}

abbrev net_line : Text
net_line = codes "eth0: 16445 198 0 0 0 0 0 0 16445 198 0 0 0 0 0 0"

abbrev net_text : Text
net_text = codes "face |bytes packets\n  eth0: 16445 198 0 0 0 0 0 0 16445 198 0 0 0 0 0 0\n"

abbrev listing : Round ℕ
listing = record quiet { net = record { opens = true; first = none; text = some net_text } }

eth0_line : HasLine (codes "eth0:") (some net_text)
unfolding find_line lines trim trim_start trim_end split_when split_whitespace strip_prefix
    starts_with is_whitespace
eth0_line = (net_line, refl, refl)

quiet-IsFriendly : IsFriendly (codes "eth0:") quiet
quiet-IsFriendly = record {
  clock = omega arith;
  line = tt;
  resets = λ c. refl;
  starts = λ c. refl;
  stops = λ c. refl;
}

listing-IsFriendly : IsFriendly (codes "eth0:") listing
listing-IsFriendly = record {
  clock = omega arith;
  line = eth0_line;
  resets = λ c. refl;
  starts = λ c. refl;
  stops = λ c. refl;
}

-- A command that opens a range failed, as no file could be opened.
abbrev one_failure : Reach release no_disks state state
one_failure = next here (dropped quiet b'[' open_failed state refused)

Reach-IsSafe_example :
    EndsIn (IsSound (Named (codes "eth0:"))) (update release no_disks listing state)
    × EndsIn (IsSound (Named (codes "eth0:"))) (handle_byte release no_disks listing b']' state)
Reach-IsSafe_example =
    Reach-IsSafe one_cpu (codes "local_") (codes "eth0") no_disks state one_failure listing b']'
      refl (tt, quiet-IsFriendly) listing-IsFriendly
