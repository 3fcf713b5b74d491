-- ===== src/Statmon/Stats/Faasm.antt =====
-- `upd_faasm` of statmon/src/stats.rs. The lock on the file is left out: it only delays the read.
use ndp_auto_offload.Base.{
  ⊤, ◌==◌, not, true, map, Option, none, some, or_err, parse_failed, unknown_field, if◌then◌else◌,
}
use ndp_auto_offload.Text.{Text, codes, text_eq, trim, split_when}
use ndp_auto_offload.Text.Parse.{parse_i64}
use ndp_auto_offload.Statmon.Which.{WhichStat}
use ndp_auto_offload.Statmon.Host.{Reading, Crates}
use ndp_auto_offload.Statmon.Run.{Action, ◌>>=◌, ◌>>◌, gets, modify, lift, when, for_each}
use ndp_auto_offload.Statmon.Stats.{Stats, seti, opening, read_text}

-- The `match field`.
unfoldable pub faasm_stat : Text → Option WhichStat
faasm_stat field =
    if text_eq field (codes "local_sched")
    then some WhichStat.faasm_local_sched
    else if text_eq field (codes "waiting_queued")
    then some WhichStat.faasm_waiting_queued
    else if text_eq field (codes "started")
    then some WhichStat.faasm_started
    else if text_eq field (codes "waiting")
    then some WhichStat.faasm_suspended
    else if text_eq field (codes "active")
    then some WhichStat.faasm_active
    else none

module _ {F C : Type 0} where
  -- The value is parsed before the field's name is looked at.
  unfoldable pub read_field : Text × Text → Action (Stats F C) ⊤
  read_field (field, fvalstr) = do
    fvalint ← lift (or_err parse_failed (parse_i64 fvalstr))
    which ← lift (or_err unknown_field (faasm_stat field))
    seti which fvalint

  unfoldable pub read_fields : Crates → Text → Action (Stats F C) ⊤
  read_fields crates rdbuf =
      for_each read_field (crates.tuples (map trim (split_when (λ c. c == b',') rdbuf)))

  unfoldable pub upd_faasm : Crates → Reading → Action (Stats F C) ⊤
  upd_faasm crates r = do
    is_open ← gets (λ s. s.open_faasm)
    when (not is_open) (do lift (opening r); modify (λ s. record s { open_faasm = true }))
    rdbuf ← lift (read_text r)
    read_fields crates rdbuf
