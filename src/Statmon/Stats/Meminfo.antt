-- ===== src/Statmon/Stats/Meminfo.antt =====
-- `upd_meminfo` of statmon/src/stats.rs.
pub mod Stored
use ndp_auto_offload.Base.{⊤, not, true, some, none}
use ndp_auto_offload.Base.Int.{ℤ}
use ndp_auto_offload.Base.Words.{Profile}
use ndp_auto_offload.Text.{Text, trimmed_lines}
use ndp_auto_offload.Statmon.Meminfo.{parse_meminfo_line, meminfo_stat}
use ndp_auto_offload.Statmon.Host.{Reading}
use ndp_auto_offload.Statmon.Run.{Action, ◌>>=◌, ◌>>◌, pure, gets, modify, lift, when, for_each}
use ndp_auto_offload.Statmon.Stats.{Stats, seti, opening, read_text}

module _ {F C : Type 0} where
  unfoldable pub store_meminfo : Text × ℤ → Action (Stats F C) ⊤
  store_meminfo (var, bytes) = elim (meminfo_stat var) [
    | some which ↦ seti which bytes
    | none ↦ pure tt
  ]

  unfoldable pub read_line : Profile → Text → Action (Stats F C) ⊤
  read_line p line = do pair ← lift (parse_meminfo_line p line); store_meminfo pair

  unfoldable pub upd_meminfo : Profile → Reading → Action (Stats F C) ⊤
  upd_meminfo p r = do
    is_open ← gets (λ s. s.open_meminfo)
    when (not is_open) (do lift (opening r); modify (λ s. record s { open_meminfo = true }))
    rdbuf ← lift (read_text r)
    for_each (read_line p) (trimmed_lines rdbuf)
