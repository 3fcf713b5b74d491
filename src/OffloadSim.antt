-- ===== src/OffloadSim.antt =====
-- ndoffloadsim/src/main.rs: the types of a scheduling problem and the mask of a node.
pub mod Masks
use ndp_auto_offload.Base.{ℕ, ◌-◌, ◌%◌, ◌^◌, ltb, List, Outcome, ok, if◌then◌else◌}
use ndp_auto_offload.Base.Int.{ℤ, pos, negsuc}
use ndp_auto_offload.Base.Words.{Profile, as_i64, overflowed}

-- An i8.
abbrev pub NodeId : Type 0
NodeId = ℤ

-- An i64.
abbrev pub SimTime : Type 0
SimTime = ℤ

-- The bit at place `k` of an i64.
unfoldable pub bit64 : ℕ → ℤ
unfolding as_i64
bit64 k = as_i64 (2 ^ k)

-- `1i64 << n`: a debug build checks the distance, and a release build takes it modulo 64.
unfoldable pub node_mask : Profile → NodeId → Outcome ℤ
node_mask p (pos n) = if ltb n 64 then ok (bit64 n) else overflowed p (bit64 (n % 64))
node_mask p (negsuc n) = overflowed p (bit64 (63 - n % 64))

abbrev pub node_compute : NodeId
node_compute = pos 0

abbrev pub node_storage : NodeId
node_storage = pos 1

pub record TaskSegment : Type 0 where
  pub time : SimTime
  pub in_mem : ℤ
  pub out_mem : ℤ
  pub delta_mem : ℤ
  -- the or of the masks of the nodes
  pub allowed_on : ℤ

pub record Task : Type 0 where
  pub start_time : SimTime
  pub segments : List TaskSegment

pub record SchedulingProblem : Type 0 where
  pub tasks : List Task

-- The map has the nodes and the times by the segments.
pub record SchedulingSolution : Type 0 where
  pub nodes_allowed : ℤ
  pub actual_start_times : List (TaskSegment × (NodeId × SimTime))
