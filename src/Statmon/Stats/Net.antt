-- ===== src/Statmon/Stats/Net.antt =====
-- `upd_net` of statmon/src/stats.rs: the traffic of one interface since the last reading.
use ndp_auto_offload.Base.{
  ⊤, ℕ, ◌==◌, ◌++◌, not, true, List, [], ◌∷◌, map, length, get_elem?, Option, none, some, Outcome,
  ok, panic, or_err, or_panic, parse_failed, unwrap_failed, bad_format, if◌then◌else◌,
}
use ndp_auto_offload.Base.Int.{ℤ, ◌-ℤ◌}
use ndp_auto_offload.Base.Words.{Profile, fit_i64}
use ndp_auto_offload.Text.{Text, is_empty, starts_with, trim, lines, split_whitespace}
use ndp_auto_offload.Text.Parse.{parse_i64}
use ndp_auto_offload.Statmon.Which.{WhichStat}
use ndp_auto_offload.Statmon.Host.{Reading}
use ndp_auto_offload.Statmon.Run.{Action, ◌>>=◌, ◌>>◌, gets, modify, lift, when}
use ndp_auto_offload.Statmon.Stats.{Stats, seti, opening, read_text}

-- `.find(|l| l.starts_with(iface))`
unfoldable pub find_line : Text → List Text → Option Text
find_line iface [] = none
find_line iface (l ∷ ls) = if starts_with iface l then some l else find_line iface ls

-- `fields.clone().nth(i).expect(..).parse()?`
unfoldable pub nth_field : List Text → ℕ → Outcome ℤ
nth_field fields i = elim (get_elem? fields i) [
  | none ↦ panic bad_format
  | some f ↦ or_err parse_failed (parse_i64 f)
]

module _ {F C : Type 0} where
  -- The interface's name with its colon is what a line begins with.
  unfoldable pub open_net_dev : Reading → Action (Stats F C) ⊤
  open_net_dev r = do
    lift (opening r)
    modify (λ s. record s { open_net = true })
    iface ← gets (λ s. s.net_iface)
    lift (if is_empty iface then panic unwrap_failed else ok tt)
    modify (λ s. record s { net_iface = s.net_iface ++ b':' ∷ [] })

  -- One counter: the statistic is its change, and the new value is kept for the next reading.
  unfoldable pub read_counter :
      Profile
      → List Text
      → ℕ
      → WhichStat
      → (Stats F C → ℤ)
      → (ℤ → Stats F C → Stats F C)
      → Action (Stats F C) ⊤
  read_counter p fields i which ref set_ref = do
    value ← lift (nth_field fields i)
    last ← gets ref
    delta ← lift (fit_i64 p (value -ℤ last))
    seti which delta
    modify (set_ref value)

  unfoldable pub read_net_fields : Profile → List Text → Action (Stats F C) ⊤
  read_net_fields p fields = do
    read_counter p fields 1 WhichStat.net_rx_bytes (λ s. s.net_rx_ref)
        (λ v s. record s { net_rx_ref = v })
    read_counter p fields 3 WhichStat.net_rx_errors (λ s. s.net_rxe_ref)
        (λ v s. record s { net_rxe_ref = v })
    read_counter p fields 9 WhichStat.net_tx_bytes (λ s. s.net_tx_ref)
        (λ v s. record s { net_tx_ref = v })
    read_counter p fields 10 WhichStat.net_tx_errors (λ s. s.net_txe_ref)
        (λ v s. record s { net_txe_ref = v })
    lift (if length fields == 17 then ok tt else panic bad_format)

  -- Trimming the words of `split_whitespace` and dropping empty ones changes nothing.
  unfoldable pub upd_net : Profile → Reading → Action (Stats F C) ⊤
  upd_net p r = do
    is_open ← gets (λ s. s.open_net)
    when (not is_open) (open_net_dev r)
    rdbuf ← lift (read_text r)
    iface ← gets (λ s. s.net_iface)
    line ← lift (or_panic unwrap_failed (find_line iface (map trim (lines rdbuf))))
    read_net_fields p (split_whitespace line)
