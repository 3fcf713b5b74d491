-- ===== src/Statmon/Stats.antt =====
-- `struct Stats` of statmon/src/stats.rs, and the parts of `update` that read /proc/loadavg,
-- /proc/meminfo, the file of the faasm monitor and /proc/net/dev.
pub mod Meminfo
pub mod Faasm
pub mod Net
use mathlib.Core.Option
use ndp_auto_offload.Base.{
  ⊤, ℕ, Bool, true, false, not, List, [], Option, none, some, Outcome, ok, err, or_err, update_at,
  if◌then◌else◌, open_failed, read_failed, parse_failed, split_failed,
}
use ndp_auto_offload.Base.Int.{ℤ, pos}
use ndp_auto_offload.Text.{Text, split_once}
use ndp_auto_offload.Statmon.Value.{FloatOps, StatValue}
use ndp_auto_offload.Statmon.Which.{WhichStat, as_usize}
use ndp_auto_offload.Statmon.Stat.{Stat}
use ndp_auto_offload.Statmon.Host.{Reading}
use ndp_auto_offload.Statmon.Init.{stats_init}
use ndp_auto_offload.Statmon.Cpu
use ndp_auto_offload.Statmon.Cpu.{CpuStat}
use ndp_auto_offload.Statmon.Io
use ndp_auto_offload.Statmon.Io.{IoStat}
use ndp_auto_offload.Statmon.Event.{EventStat}
use ndp_auto_offload.Statmon.Run.{Action, ◌>>=◌, ◌>>◌, gets, modify, lift, when}

pub record Stats (F C : Type 0) : Type 0 where
  pub in_range : Bool
  pub host_prefix : Text
  pub net_iface : Text
  -- `fp_loadavg.is_some()` and the like
  pub open_loadavg : Bool
  pub open_meminfo : Bool
  pub open_net : Bool
  pub open_faasm : Bool
  pub cpu : CpuStat
  pub events : EventStat C
  pub stats : List (Stat F)
  pub net_rx_ref : ℤ
  pub net_rxe_ref : ℤ
  pub net_tx_ref : ℤ
  pub net_txe_ref : ℤ
  pub io : IoStat

-- `self.stats[which as usize].value_now = value`; every index is below the array's fixed length.
unfoldable pub set_now : {F : Type 0} → WhichStat → StatValue F → List (Stat F) → List (Stat F)
set_now which value stats = update_at (as_usize which) (λ s. record s { value_now = value }) stats

unfoldable pub opening : Reading → Outcome ⊤
opening r = if r.opens then ok tt else err open_failed

-- The text is what follows the last `clear` of the buffer.
unfoldable pub read_text : Reading → Outcome Text
read_text r = or_err read_failed r.text

module _ {F C : Type 0} where
  unfoldable pub new : ⦃fl : FloatOps F⦄ → EventStat C → Stats F C
  new events = record {
    in_range = false;
    host_prefix = [];
    net_iface = [];
    open_loadavg = false;
    open_meminfo = false;
    open_net = false;
    open_faasm = false;
    cpu = Cpu.new;
    events = events;
    stats = stats_init;
    net_rx_ref = pos 0;
    net_rxe_ref = pos 0;
    net_tx_ref = pos 0;
    net_txe_ref = pos 0;
    io = Io.new;
  }

  unfoldable pub put : WhichStat → StatValue F → Action (Stats F C) ⊤
  put which value = modify (λ s. record s { stats = set_now which value s.stats })

  -- `seti` on one statistic
  unfoldable pub seti : WhichStat → ℤ → Action (Stats F C) ⊤
  seti which v = put which (StatValue.int v)

  unfoldable pub upd_loadavg : ⦃fl : FloatOps F⦄ → Reading → Action (Stats F C) ⊤
  upd_loadavg ⦃fl⦄ r = do
    is_open ← gets (λ s. s.open_loadavg)
    when (not is_open) (do lift (opening r); modify (λ s. record s { open_loadavg = true }))
    rdbuf ← lift (read_text r)
    pair ← lift (or_err split_failed (split_once b' ' rdbuf))
    value ← lift (or_err parse_failed (fl.parse pair.0))
    put WhichStat.load_avg1min (StatValue.float value)
