-- ===== src/Tests/OffloadSim.antt =====
-- The masks of the nodes of ndoffloadsim/src/main.rs.
use ndp_auto_offload.Base.{◌≡◌, arith, ok}
use ndp_auto_offload.Base.Int.{ℤ}
use ndp_auto_offload.Base.Words.{debug, pattern64}
use ndp_auto_offload.OffloadSim.{node_mask, node_storage}
use ndp_auto_offload.OffloadSim.Masks.{bit_at, node_mask-bit_at}

node_mask-bit_at_example :
    (mask : ℤ) × (node_mask debug node_storage ≡ ok mask) × (bit_at 1 (pattern64 mask) ≡ 1)
node_mask-bit_at_example = node_mask-bit_at debug 1 1 (omega arith) (omega arith)
