-- ===== src/Statmon/Invariant.antt =====
-- The invariant of the monitor's state of statmon/src/stats.rs.
pub mod Files
pub mod Updates
pub mod Steps
pub mod Start
use ndp_auto_offload.Base.{List, [], ◌∷◌, All}
use ndp_auto_offload.Statmon.Event.{EventStat}
use ndp_auto_offload.Statmon.Stats.{Stats}
use ndp_auto_offload.Statmon.Table.{IsTable, IsIntSlot}

abbrev pub EventSlots : {C : Type 0} → EventStat C → Type 0
EventSlots events = All (λ e. IsIntSlot e.0) events

-- The table has its kinds, and the event counters write to integer slots.
abbrev pub IsWellFormed : {F C : Type 0} → Stats F C → Type 0
IsWellFormed s = IsTable s.stats × EventSlots s.events
