-- ===== src/Statmon/Server/Ranges.antt =====
-- The commands of `conn_handler` in statmon/src/main.rs that begin and end a range.
pub mod Ticks
pub mod Observed
pub mod Whole
use ndp_auto_offload.Base.{refl, sym, ap, ◌∙◌, ◌≡◌, true, false, [], map, Outcome, ok, err, panic}
use ndp_auto_offload.Base.Words.{Profile}
use ndp_auto_offload.Statmon.Value.{FloatOps}
use ndp_auto_offload.Statmon.Host.{Round, Crates}
use ndp_auto_offload.Statmon.Stat.{reset}
use ndp_auto_offload.Statmon.Run.{
  Run, returns, fails, panics, Action, ◌>>=◌, bind_run, pure, gets, modify, lift,
}
use ndp_auto_offload.Statmon.Run.Returns.{bind_returns, lift_returns, returns-injective}
use ndp_auto_offload.Statmon.Stats.{Stats}
use ndp_auto_offload.Statmon.Monitor.{update, begin_range, end_range}
use ndp_auto_offload.Statmon.Packet.{stat_packet}
use ndp_auto_offload.Statmon.Server.{Reply, written, packet, handle_byte}

module _ {F C : Type 0} ⦃fl : FloatOps F⦄ where
  begin_range_returns :
      (r : Round C) (s t : Stats F C)
      → begin_range r s ≡ returns tt t
      → t ≡ record s { in_range = true; stats = map reset s.stats }
  unfolding begin_range ◌>>=◌ modify gets
  begin_range_returns r s t h = sym (lift_returns _ _ t tt h)

  end_range_returns :
      (r : Round C) (s t : Stats F C)
      → end_range r s ≡ returns tt t
      → t ≡ record s { in_range = false }
  unfolding end_range ◌>>=◌ modify gets
  end_range_returns r s t h = sym (lift_returns _ _ t tt h)

  -- A `[` that is answered writes nothing, and leaves the statistics of an update, each reset for a
  -- new range, and the range open.
  pub handle_byte_open :
      (p : Profile) (crates : Crates) (r : Round C) (s u : Stats F C) (reply : Reply)
      → handle_byte p crates r b'[' s ≡ returns reply u
      → (t : Stats F C) × (update p crates r s ≡ returns tt t)
        × (reply ≡ written [])
        × (u ≡ record t { in_range = true; stats = map reset t.stats })
  unfolding handle_byte ◌>>=◌ pure
  handle_byte_open p crates r s u reply h =
      let (_, t, first, rest) = bind_returns (update p crates r s) _ reply u h in
      let (_, v, second, last) = bind_returns (begin_range r t) _ reply u rest in
      let (answered, same) = returns-injective (written []) reply v u last in
      (t, first, answered, same ∙ begin_range_returns r t v second)

  -- A `]` that is answered closes the range behind an update, and writes the packet of the statistics
  -- that it leaves.
  pub handle_byte_close :
      (p : Profile) (crates : Crates) (r : Round C) (s u : Stats F C) (reply : Reply)
      → handle_byte p crates r b']' s ≡ returns reply u
      → (t : Stats F C) × (update p crates r s ≡ returns tt t)
        × (reply ≡ written (stat_packet u.host_prefix u.stats))
        × (u ≡ record t { in_range = false })
  unfolding handle_byte ◌>>=◌ packet gets
  handle_byte_close p crates r s u reply h =
      let (_, t, first, rest) = bind_returns (update p crates r s) _ reply u h in
      let (_, v, second, last) = bind_returns (end_range r t) _ reply u rest in
      let (answered, same) =
        returns-injective (written (stat_packet v.host_prefix v.stats)) reply v u last in
      (
        t,
        first,
        answered ∙ ap (λ (x : Stats F C). written (stat_packet x.host_prefix x.stats)) (sym same),
        same ∙ end_range_returns r t v second,
      )
