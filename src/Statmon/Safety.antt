-- ===== src/Statmon/Safety.antt =====
-- What `Stats::update` of statmon/src/stats.rs needs of its state and of the text of /proc/net/dev so
-- as not to panic.
pub mod Parts
pub mod Net
pub mod Update
pub mod Daemon
use ndp_auto_offload.Base.{
  ⊤, ℕ, ◌≡◌, Bool, true, false, List, ◌∷◌, [], ◌++◌, map, length, Option, none, some, if◌then◌else◌,
}
use ndp_auto_offload.Text.{Text, is_empty, trim, lines, split_whitespace}
use ndp_auto_offload.Statmon.Stats.{Stats}
use ndp_auto_offload.Statmon.Stats.Net.{find_line}
use ndp_auto_offload.Statmon.Table.{IsTable}
use ndp_auto_offload.Statmon.Invariant.{EventSlots}
use ndp_auto_offload.Statmon.Cpu.Sizes as CpuSizes
use ndp_auto_offload.Statmon.Io.Sizes as IoSizes

-- What the line of the interface begins with: once the file is open, the colon is in its name.
abbrev pub line_start : {F C : Type 0} → Stats F C → Text
line_start s = if s.open_net then s.net_iface else s.net_iface ++ b':' ∷ []

-- The interface has a name, and the text of /proc/net/dev, if it is read, a line of 17 words for it.
abbrev pub IsListed : Option Text → Text → Text → Type 0
IsListed none iface start = is_empty iface ≡ false
IsListed (some text) iface start =
    (is_empty iface ≡ false)
    × (line : Text) × (find_line start (map trim (lines text)) ≡ some line)
    × (length (split_whitespace line) ≡ 17)

-- What is asked of the name of the interface and of what its line begins with. Opening the file, which
-- appends the colon to the name, keeps it, and it lists the interface in the text that is read.
abbrev pub Listing : Type 1
Listing = Text → Text → Type 0

pub record IsListing (net : Listing) (text : Option Text) : Type 0 where
  pub opened : (iface start : Text) → net iface start → net (iface ++ b':' ∷ []) start
  pub listed : (iface start : Text) → net iface start → IsListed text iface start

-- The table has its kinds, the counters write to integers, the arrays have their sizes, and the
-- interface is listed.
abbrev pub IsSound : {F C : Type 0} → Listing → Stats F C → Type 0
IsSound net s =
    IsTable s.stats
    × EventSlots s.events
    × CpuSizes.IsSized s.cpu
    × IoSizes.IsSized s.io
    × net s.net_iface (line_start s)
