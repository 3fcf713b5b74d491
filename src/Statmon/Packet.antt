-- ===== src/Statmon/Packet.antt =====
-- `stat_packet` of statmon/src/stats.rs: the line of comma-separated fields that a client is sent.
pub mod Fields
pub mod Values
pub mod Plain
pub mod Measured
use ndp_auto_offload.Base.{List, [], ◌∷◌, ◌++◌}
use ndp_auto_offload.Base.Int.{pos, max_ℤ}
use ndp_auto_offload.Text.{Text, codes}
use ndp_auto_offload.Text.Print.{show_ℤ}
use ndp_auto_offload.Statmon.Value
use ndp_auto_offload.Statmon.Value.{FloatOps, valf}
use ndp_auto_offload.Statmon.Stat.{Stat}

module _ {F : Type 0} ⦃fl : FloatOps F⦄ where
  -- `stat.value_sum.valf() / stat.value_cnt.max(1) as f64`
  unfoldable pub average : Stat F → F
  average s = fl.div (valf s.value_sum) (fl.of_int (max_ℤ s.value_cnt (pos 1)))

  -- The placeholders of the format string and the names before them, in order.
  unfoldable pub stat_fields : Text → Stat F → List Text
  stat_fields hp s =
      let n = hp ++ s.name in
      n
      ∷ Value.show s.value_now
      ∷ (n ++ codes "_min")
      ∷ Value.show s.value_min
      ∷ (n ++ codes "_max")
      ∷ Value.show s.value_max
      ∷ (n ++ codes "_avg")
      ∷ fl.show (average s)
      ∷ (n ++ codes "_sum")
      ∷ Value.show s.value_sum
      ∷ (n ++ codes "_cnt")
      ∷ show_ℤ s.value_cnt
      ∷ []

-- Each field with the comma behind it, as the format string has them.
unfoldable pub with_commas : List Text → Text
with_commas [] = []
with_commas (f ∷ fs) = f ++ b',' ∷ with_commas fs

-- `String::pop`
unfoldable pub pop : Text → Text
pop [] = []
pop (c ∷ []) = []
pop (c ∷ d ∷ s) = c ∷ pop (d ∷ s)

module _ {F : Type 0} ⦃fl : FloatOps F⦄ where
  unfoldable pub write_stats : Text → List (Stat F) → Text
  write_stats hp [] = []
  write_stats hp (s ∷ stats) = with_commas (stat_fields hp s) ++ write_stats hp stats

  unfoldable pub stat_packet : Text → List (Stat F) → Text
  stat_packet hp stats = pop (write_stats hp stats) ++ b'\n' ∷ []
