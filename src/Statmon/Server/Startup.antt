-- ===== src/Statmon/Server/Startup.antt =====
-- How `async_main` of statmon/src/main.rs starts, before it listens.
use ndp_auto_offload.Base.{List, ◌≡◌, ⊤, Option, map}
use ndp_auto_offload.Base.Words.{Profile, release}
use ndp_auto_offload.Text.{Text}
use ndp_auto_offload.Statmon.Value.{FloatOps}
use ndp_auto_offload.Statmon.Host.{Round, Crates}
use ndp_auto_offload.Statmon.Event.{PerfEvent}
use ndp_auto_offload.Statmon.Run.{Action, returns, ◌>>=◌}
use ndp_auto_offload.Statmon.Stats.{Stats}
use ndp_auto_offload.Statmon.Monitor.{update, aggregate}
use ndp_auto_offload.Statmon.Table.{aggregated}
use ndp_auto_offload.Statmon.Invariant.Start.{start_state, aggregate_total}
use ndp_auto_offload.Statmon.Server.{tick, Reach, here, next}
use ndp_auto_offload.Statmon.Run.Returns.{bind_returns}

module _ {F C : Type 0} ⦃fl : FloatOps F⦄ where
  -- The two updates before the socket is bound; an error of one of them ends the program.
  unfoldable pub start_up : Profile → Crates → Round C → Round C → Action (Stats F C) ⊤
  start_up p crates r1 r2 = update p crates r1 >>= λ _. update p crates r2

  start_up-Reach :
      (p : Profile) (crates : Crates) (r1 r2 : Round C) (s u : Stats F C)
      → start_up p crates r1 r2 s ≡ returns tt u
      → Reach p crates s u
  unfolding start_up ◌>>=◌
  start_up-Reach p crates r1 r2 s u h =
      let (_, t, first, second) = bind_returns (update p crates r1 s) _ tt u h in
      next (next here (tick r1 t first)) (tick r2 u second)

  Reach-Reach :
      (p : Profile) (crates : Crates) (s t u : Stats F C)
      → Reach p crates s t
      → Reach p crates t u
      → Reach p crates s u
  Reach-Reach p crates s t _ r here = r
  Reach-Reach p crates s t u r (next q step) = next (Reach-Reach p crates s t _ r q) step

  -- After a start whose two updates end well, in every state that ticks and commands of any number of
  -- connections reach, a release build aggregates all statistics without a panic.
  pub started_total :
      (finish : PerfEvent → List (Option C)) (host_prefix net_iface : Text) (crates : Crates)
      (r1 r2 : Round C) (t u : Stats F C)
      → start_up release crates r1 r2 (start_state finish host_prefix net_iface) ≡ returns tt t
      → Reach release crates t u
      → aggregate release u ≡ returns tt (record u { stats = map aggregated u.stats })
  started_total finish host_prefix net_iface crates r1 r2 t u h r =
      aggregate_total finish host_prefix net_iface crates u
        (Reach-Reach release crates _ t u (start_up-Reach release crates r1 r2 _ t h) r)
