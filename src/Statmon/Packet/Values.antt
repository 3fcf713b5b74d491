-- ===== src/Statmon/Packet/Values.antt =====
-- The values in a packet of statmon/src/stats.rs.
use ndp_auto_offload.Base.{◌≡◌, some}
use ndp_auto_offload.Base.Int.{ℤ}
use ndp_auto_offload.Base.Words.{IsI64}
use ndp_auto_offload.Text.Parse.{parse_i64}
use ndp_auto_offload.Text.RoundTrip.{parse_i64-show_ℤ}
use ndp_auto_offload.Statmon.Value.{FloatOps, StatValue, show}

-- The text of an integer value in the range of i64, as `Display` writes it into the packet, is read
-- back by `parse` as the same value, negative or not.
pub parse-show :
    (F : Type 0) ⦃fl : FloatOps F⦄ (z : ℤ)
    → IsI64 z
    → parse_i64 (show {F = F} (StatValue.int z)) ≡ some z
unfolding show
parse-show F z h = parse_i64-show_ℤ z h
