-- ===== src/Statmon/Stat.antt =====
-- `struct Stat` of statmon/src/stats.rs: a value and its aggregate over a range of updates.
use ndp_auto_offload.Base.{Outcome, ok, ◌>>=◌}
use ndp_auto_offload.Base.Int.{ℤ, pos, ◌+ℤ◌}
use ndp_auto_offload.Base.Words.{Profile, fit_i64}
use ndp_auto_offload.Text.{Text}
use ndp_auto_offload.Statmon.Value.{
  FloatOps, StatValue, minval, maxval, zeroval, set_min, set_max, set_add,
}

pub record Stat (F : Type 0) : Type 0 where
  pub name : Text
  pub value_now : StatValue F
  pub value_min : StatValue F
  pub value_max : StatValue F
  pub value_sum : StatValue F
  pub value_cnt : ℤ

module _ {F : Type 0} ⦃fl : FloatOps F⦄ where
  unfoldable pub int : Text → Stat F
  int name = record {
    name = name;
    value_now = StatValue.int (pos 0);
    value_min = maxval (StatValue.int (pos 0));
    value_max = minval (StatValue.int (pos 0));
    value_sum = StatValue.int (pos 0);
    value_cnt = pos 0;
  }

  unfoldable pub float : Text → Stat F
  float name = record {
    name = name;
    value_now = StatValue.float fl.zero;
    value_min = maxval (StatValue.float fl.zero);
    value_max = minval (StatValue.float fl.zero);
    value_sum = StatValue.float fl.zero;
    value_cnt = pos 0;
  }

  unfoldable pub reset : Stat F → Stat F
  reset s = record s {
    value_min = maxval s.value_now;
    value_max = minval s.value_now;
    value_sum = zeroval s.value_now;
    value_cnt = pos 0;
  }

  -- A panic abandons the update; in a debug build it may come from the sum or from the count.
  unfoldable pub update_aggregate : Profile → Stat F → Outcome (Stat F)
  update_aggregate p s = do
    low ← set_min s.value_min s.value_now
    high ← set_max s.value_max s.value_now
    sum ← set_add p s.value_sum s.value_now
    cnt ← fit_i64 p (s.value_cnt +ℤ pos 1)
    ok (record s { value_min = low; value_max = high; value_sum = sum; value_cnt = cnt })
