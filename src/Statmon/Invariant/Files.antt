-- ===== src/Statmon/Invariant/Files.antt =====
-- The invariant under the parts of `Stats::update` that read text files of named values.
use ndp_auto_offload.Base.{
  ℕ, Error, unknown_field, or_err, refl, ◌≡◌, List, Option, none, some, ok, arith,
}
use ndp_auto_offload.Base.Int.{ℤ}
use ndp_auto_offload.Base.Words.{Profile}
use ndp_auto_offload.Text.{Text}
use ndp_auto_offload.Statmon.Which.{WhichStat}
use ndp_auto_offload.Statmon.Host.{Reading, Crates}
use ndp_auto_offload.Statmon.Run.{pure}
use ndp_auto_offload.Statmon.Run.Keeps.{
  Keeps, Keeps-bind, Keeps-lift, Keeps-pure, Keeps-bind-lift, Keeps-modify, keeps,
}
use ndp_auto_offload.Statmon.Meminfo.{meminfo_stat}
use ndp_auto_offload.Statmon.Stats.{Stats, put, seti}
use ndp_auto_offload.Statmon.Stats.Meminfo.{store_meminfo, upd_meminfo}
use ndp_auto_offload.Statmon.Stats.Meminfo
use ndp_auto_offload.Statmon.Stats.Faasm.{faasm_stat, read_field, read_fields, upd_faasm}
use ndp_auto_offload.Statmon.Stats.Net.{open_net_dev, read_counter, read_net_fields, upd_net}
use ndp_auto_offload.Statmon.Table.{IsIntSlot, set_now-IsTable}
use ndp_auto_offload.Statmon.Invariant.{IsWellFormed}

module _ {F C : Type 0} where
  pub seti-Keeps :
      (which : WhichStat) (v : ℤ)
      → IsIntSlot which
      → Keeps (IsWellFormed {F = F} {C = C}) (seti which v)
  unfolding seti put
  seti-Keeps which v slot = Keeps-modify _ λ s h. (set_now-IsTable which v s.stats slot h.0, h.1)

  -- `match` on a name: where it names a statistic, an integer is stored.
  seti_option-Keeps :
      (o : Option WhichStat) (v : ℤ)
      → ((which : WhichStat) → o ≡ some which → IsIntSlot which)
      → Keeps (IsWellFormed {F = F} {C = C}) (elim o [ some which ↦ seti which v | none ↦ pure tt ])
  seti_option-Keeps none v k = Keeps-pure tt
  seti_option-Keeps (some which) v k = seti-Keeps which v (k which refl)

pub meminfo_stat-IsIntSlot :
    (var : Text) (which : WhichStat) → meminfo_stat var ≡ some which → IsIntSlot which
unfolding meminfo_stat
meminfo_stat-IsIntSlot var which e = ground arith

pub faasm_stat-IsIntSlot :
    (field : Text) (which : WhichStat) → faasm_stat field ≡ some which → IsIntSlot which
unfolding faasm_stat
faasm_stat-IsIntSlot field which e = ground arith

pub or_err-eq-ok : {A : Type 0} (e : Error) (o : Option A) {a : A} → or_err e o ≡ ok a → o ≡ some a
or_err-eq-ok e none h = cc
or_err-eq-ok e (some a) h = cc

module _ {F C : Type 0} where
  store_meminfo-Keeps :
      (pair : Text × ℤ) → Keeps (IsWellFormed {F = F} {C = C}) (store_meminfo pair)
  unfolding store_meminfo
  store_meminfo-Keeps (var, bytes) =
      seti_option-Keeps (meminfo_stat var) bytes (meminfo_stat-IsIntSlot var)

  pub upd_meminfo-Keeps :
      (p : Profile) (r : Reading) → Keeps (IsWellFormed {F = F} {C = C}) (upd_meminfo p r)
  unfolding upd_meminfo Meminfo.read_line
  upd_meminfo-Keeps p r = search (keeps, store_meminfo-Keeps) depth 8

  read_field-Keeps : (pair : Text × Text) → Keeps (IsWellFormed {F = F} {C = C}) (read_field pair)
  unfolding read_field
  read_field-Keeps (field, fvalstr) = Keeps-bind _ _ (Keeps-lift _) λ v.
      Keeps-bind-lift _ _ λ which e.
        seti-Keeps which v
          (faasm_stat-IsIntSlot field which (or_err-eq-ok unknown_field (faasm_stat field) e))

  pub upd_faasm-Keeps :
      (crates : Crates) (r : Reading) → Keeps (IsWellFormed {F = F} {C = C}) (upd_faasm crates r)
  unfolding upd_faasm read_fields
  upd_faasm-Keeps crates r = search (keeps, read_field-Keeps) depth 8

  open_net_dev-Keeps : (r : Reading) → Keeps (IsWellFormed {F = F} {C = C}) (open_net_dev r)
  unfolding open_net_dev
  open_net_dev-Keeps r = search keeps depth 8

  read_counter-Keeps :
      (p : Profile) (fields : List Text) (i : ℕ) (which : WhichStat) (ref : Stats F C → ℤ)
      (set_ref : ℤ → Stats F C → Stats F C)
      → IsIntSlot which
      → ((v : ℤ) (s : Stats F C) → IsWellFormed s → IsWellFormed (set_ref v s))
      → Keeps IsWellFormed (read_counter p fields i which ref set_ref)
  unfolding read_counter
  read_counter-Keeps p fields i which ref set_ref slot k = search (keeps, seti-Keeps, slot) depth 8

  read_net_fields-Keeps :
      (p : Profile) (fields : List Text)
      → Keeps (IsWellFormed {F = F} {C = C}) (read_net_fields p fields)
  unfolding read_net_fields
  read_net_fields-Keeps p fields = search (keeps, read_counter-Keeps, tt) depth 8

  pub upd_net-Keeps :
      (p : Profile) (r : Reading) → Keeps (IsWellFormed {F = F} {C = C}) (upd_net p r)
  unfolding upd_net
  upd_net-Keeps p r = search (keeps, open_net_dev-Keeps, read_net_fields-Keeps) depth 8
