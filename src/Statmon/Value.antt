-- ===== src/Statmon/Value.antt =====
-- `StatValue` of statmon/src/stats.rs. `f64` and its operations are a parameter: an interface.
use ndp_auto_offload.Base.{Option, Outcome, ok, panic, mismatched_types, map_ok}
use ndp_auto_offload.Base.Int.{ℤ, pos, ◌+ℤ◌, min_ℤ, max_ℤ}
use ndp_auto_offload.Base.Words.{Profile, fit_i64, i64_min, i64_max}
use ndp_auto_offload.Text.{Text}
use ndp_auto_offload.Text.Print.{show_ℤ}

-- The operations of `f64` that the monitor calls.
pub record FloatOps (F : Type 0) : Type 0 where
  pub zero : F
  pub min_value : F
  pub max_value : F
  pub add : F → F → F
  pub min : F → F → F
  pub max : F → F → F
  pub div : F → F → F
  pub of_int : ℤ → F
  pub parse : Text → Option F
  pub show : F → Text

pub data StatValue (F : Type 0) : Type 0 where
  float : F → StatValue F
  int : ℤ → StatValue F

module _ {F : Type 0} ⦃fl : FloatOps F⦄ where
  unfoldable pub valf : StatValue F → F
  valf (float v) = v
  valf (int v) = fl.of_int v

  unfoldable pub minval : StatValue F → StatValue F
  minval (float v) = float fl.min_value
  minval (int v) = int i64_min

  unfoldable pub maxval : StatValue F → StatValue F
  maxval (float v) = float fl.max_value
  maxval (int v) = int i64_max

  unfoldable pub zeroval : StatValue F → StatValue F
  zeroval (float v) = float fl.zero
  zeroval (int v) = int (pos 0)

  unfoldable pub set_min : StatValue F → StatValue F → Outcome (StatValue F)
  set_min (float m) (float v) = ok (float (fl.min m v))
  set_min (int m) (int v) = ok (int (min_ℤ m v))
  set_min _ _ = panic mismatched_types

  unfoldable pub set_max : StatValue F → StatValue F → Outcome (StatValue F)
  set_max (float m) (float v) = ok (float (fl.max m v))
  set_max (int m) (int v) = ok (int (max_ℤ m v))
  set_max _ _ = panic mismatched_types

  unfoldable pub set_add : Profile → StatValue F → StatValue F → Outcome (StatValue F)
  set_add p (float m) (float v) = ok (float (fl.add m v))
  set_add p (int m) (int v) = map_ok int (fit_i64 p (m +ℤ v))
  set_add p _ _ = panic mismatched_types

  -- `Display`
  unfoldable pub show : StatValue F → Text
  show (float v) = fl.show v
  show (int v) = show_ℤ v
