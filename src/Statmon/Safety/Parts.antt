-- ===== src/Statmon/Safety/Parts.antt =====
-- The parts of `Stats::update` in statmon/src/stats.rs, but that of the network.
use ndp_auto_offload.Base.{
  ⊤, ℕ, zero, suc, ◌<◌, ◌≡◌, refl, List, ◌∷◌, [], length, All, Option, none, some, Outcome, ok, err,
  unknown_field, arith, panic,
}
use ndp_auto_offload.Base.Int.{ℤ}
use ndp_auto_offload.Base.Words.{release, fit_i64, fit_i64-eq-wrap, as_i64}
use ndp_auto_offload.Text.{Text}
use ndp_auto_offload.Statmon.Value.{FloatOps, StatValue}
use ndp_auto_offload.Statmon.Which.{WhichStat}
use ndp_auto_offload.Statmon.Host.{Reading, Crates}
use ndp_auto_offload.Statmon.Run.{Action, ◌>>=◌, lift, pure, for_each, zoom}
use ndp_auto_offload.Statmon.Run.Safe.{
  IsCalm, IsSafe, EndsIn-map_state, or_err-IsCalm, lift-IsSafe, pure-IsSafe, modify-IsSafe,
  >>=-IsSafe, safe,
}
use ndp_auto_offload.Statmon.Cpu.Sizes as CpuSizes
use ndp_auto_offload.Statmon.Cpu.{CpuStat}
use ndp_auto_offload.Statmon.Io.{IoStat}
use ndp_auto_offload.Statmon.Cpu.Sizes.{
  if-IsCalm, fit_uint-IsCalm, sub_uint-IsCalm, differences-length,
}
use ndp_auto_offload.Statmon.Io.Sizes as IoSizes
use ndp_auto_offload.Statmon.Meminfo.{parse_meminfo_line, meminfo_stat}
use ndp_auto_offload.Statmon.Stats.{put, seti, opening, read_text, upd_loadavg}
use ndp_auto_offload.Statmon.Stats.Meminfo
use ndp_auto_offload.Statmon.Stats.Meminfo.{store_meminfo, upd_meminfo}
use ndp_auto_offload.Statmon.Stats.Faasm.{faasm_stat, read_field, read_fields, upd_faasm}
use ndp_auto_offload.Statmon.Monitor.{store_slot, store_slots}
use ndp_auto_offload.Statmon.Table.{IsIntSlot, set_now-IsTable, set_now-float-IsTable}
use ndp_auto_offload.Statmon.Invariant.Files.{
  meminfo_stat-IsIntSlot, faasm_stat-IsIntSlot, or_err-eq-ok,
}
use ndp_auto_offload.Statmon.Safety.{Listing, IsSound}

pub fit_i64-IsCalm : (z : ℤ) → IsCalm (fit_i64 release z)
fit_i64-IsCalm z = rw (fit_i64-eq-wrap z) tt

opening-IsCalm : (r : Reading) → IsCalm (opening r)
unfolding opening
opening-IsCalm r = if-IsCalm r.opens tt _

pub read_text-IsCalm : (r : Reading) → IsCalm (read_text r)
unfolding read_text
read_text-IsCalm r = or_err-IsCalm _ r.text

module _ {S A B : Type 0} {P : S → Type 0} where
  -- The rest of a block may use what a computation gave.
  pub >>=-lift-IsSafe :
      (o : Outcome A) (f : A → Action S B)
      → IsCalm o
      → ((a : A) → o ≡ ok a → IsSafe P (f a))
      → IsSafe P (lift o >>= f)
  unfolding ◌>>=◌ lift
  >>=-lift-IsSafe (panic q) f c k = elim c [ ]
  >>=-lift-IsSafe (err e) f c k = record { run = λ s h. h }
  >>=-lift-IsSafe (ok a) f c k = record { run = λ s h. (k a refl).run s h }

parse_meminfo_line-IsCalm : (line : Text) → IsCalm (parse_meminfo_line release line)
unfolding parse_meminfo_line
parse_meminfo_line-IsCalm line = search (safe, fit_i64-IsCalm, tt) depth 8

module _ {F C : Type 0} (net : Listing) where
  pub seti-IsSafe :
      (which : WhichStat) (v : ℤ)
      → IsIntSlot which
      → IsSafe (IsSound {F = F} {C = C} net) (seti which v)
  unfolding seti put
  seti-IsSafe which v slot =
      modify-IsSafe _ λ s h. (set_now-IsTable which v s.stats slot h.0, h.1, h.2, h.3, h.4)

  seti_option-IsSafe :
      (o : Option WhichStat) (v : ℤ)
      → ((which : WhichStat) → o ≡ some which → IsIntSlot which)
      → IsSafe (IsSound {F = F} {C = C} net) (elim o [ some which ↦ seti which v | none ↦ pure tt ])
  seti_option-IsSafe none v k = pure-IsSafe tt
  seti_option-IsSafe (some which) v k = seti-IsSafe which v (k which refl)

  store_meminfo-IsSafe :
      (pair : Text × ℤ) → IsSafe (IsSound {F = F} {C = C} net) (store_meminfo pair)
  unfolding store_meminfo
  store_meminfo-IsSafe (var, bytes) =
      seti_option-IsSafe (meminfo_stat var) bytes (meminfo_stat-IsIntSlot var)

  pub upd_meminfo-IsSafe :
      (r : Reading) → IsSafe (IsSound {F = F} {C = C} net) (upd_meminfo release r)
  unfolding upd_meminfo Meminfo.read_line
  upd_meminfo-IsSafe r =
      search
        (safe, opening-IsCalm, read_text-IsCalm, parse_meminfo_line-IsCalm, store_meminfo-IsSafe)
        depth 10

  read_field-IsSafe : (pair : Text × Text) → IsSafe (IsSound {F = F} {C = C} net) (read_field pair)
  unfolding read_field
  read_field-IsSafe (field, fvalstr) = >>=-IsSafe _ _ (lift-IsSafe _ (or_err-IsCalm _ _)) λ v.
      >>=-lift-IsSafe _ _ (or_err-IsCalm _ _) λ which e.
        seti-IsSafe which v
          (faasm_stat-IsIntSlot field which (or_err-eq-ok unknown_field (faasm_stat field) e))

  pub upd_faasm-IsSafe :
      (crates : Crates) (r : Reading) → IsSafe (IsSound {F = F} {C = C} net) (upd_faasm crates r)
  unfolding upd_faasm read_fields
  upd_faasm-IsSafe crates r =
      search (safe, opening-IsCalm, read_text-IsCalm, read_field-IsSafe) depth 10

  put-float-IsSafe :
      (v : F)
      → IsSafe (IsSound {F = F} {C = C} net) (put WhichStat.load_avg1min (StatValue.float v))
  unfolding put
  put-float-IsSafe v =
      modify-IsSafe _ λ s h. (set_now-float-IsTable v s.stats h.0, h.1, h.2, h.3, h.4)

  pub upd_loadavg-IsSafe :
      ⦃fl : FloatOps F⦄ → (r : Reading) → IsSafe (IsSound {F = F} {C = C} net) (upd_loadavg r)
  unfolding upd_loadavg
  upd_loadavg-IsSafe r = search (safe, opening-IsCalm, read_text-IsCalm, put-float-IsSafe) depth 10

  pub zoom_cpu-IsSafe :
      (m : Action CpuStat ⊤)
      → IsSafe CpuSizes.IsSized m
      → IsSafe (IsSound {F = F} {C = C} net) (zoom (λ s. s.cpu) (λ c s. record s { cpu = c }) m)
  unfolding zoom
  zoom_cpu-IsSafe m k = record {
    run = λ s h.
        EndsIn-map_state CpuSizes.IsSized (IsSound net) (λ c. record s { cpu = c }) (m s.cpu)
          (k.run s.cpu h.2) (λ c e. (h.0, h.1, e, h.3, h.4));
  }

  pub zoom_io-IsSafe :
      (m : Action IoStat ⊤)
      → IsSafe IoSizes.IsSized m
      → IsSafe (IsSound {F = F} {C = C} net) (zoom (λ s. s.io) (λ c s. record s { io = c }) m)
  unfolding zoom
  zoom_io-IsSafe m k = record {
    run = λ s h.
        EndsIn-map_state IoSizes.IsSized (IsSound net) (λ c. record s { io = c }) (m s.io)
          (k.run s.io h.3) (λ c e. (h.0, h.1, h.2, e, h.4));
  }

  store_slot-IsSafe :
      (totals : List ℕ) (slot : WhichStat × ℕ)
      → IsIntSlot slot.0
      → slot.1 < length totals
      → IsSafe (IsSound {F = F} {C = C} net) (store_slot totals slot)
  unfolding store_slot
  store_slot-IsSafe [] (which, i) h k = absurd (omega arith)
  store_slot-IsSafe (v ∷ totals) (which, zero) h k = seti-IsSafe which (as_i64 v) h
  store_slot-IsSafe (v ∷ totals) (which, suc i) h k =
      store_slot-IsSafe totals (which, i) h (omega arith)

  pub store_slots-IsSafe :
      (totals : List ℕ) (slots : List (WhichStat × ℕ))
      → All (λ e. IsIntSlot e.0) slots
      → All (λ e. e.1 < length totals) slots
      → IsSafe (IsSound {F = F} {C = C} net) (store_slots totals slots)
  unfolding store_slots for_each
  store_slots-IsSafe totals [] h k = pure-IsSafe tt
  store_slots-IsSafe totals (slot ∷ slots) h k =
      >>=-IsSafe _ _ (store_slot-IsSafe totals slot h.0 k.0)
        λ _. store_slots-IsSafe totals slots h.1 k.1
