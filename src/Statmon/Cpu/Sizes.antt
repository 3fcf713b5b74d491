-- ===== src/Statmon/Cpu/Sizes.antt =====
-- The sizes of the arrays of `CpuStat` in statmon/src/cpustat.rs, and the panics of its updates.
use ndp_auto_offload.Base.{
  ⊤, ℕ, ◌+◌, ◌-◌, Error, ◌*◌, ◌<◌, ◌≡◌, refl, ◌∙◌, ap, suc, arith, Bool, true, false, List, [], ◌∷◌,
  length, drop, Option, Outcome, ok, err, Bool-cases, inl, inr, if◌then◌else◌, ltb, leb,
}
use ndp_auto_offload.Base.Words.{release, fit_uint, sub_uint, div_uint, u64_mod}
use ndp_auto_offload.Text.{Text, codes, trim, starts_with, strip_prefix, split_whitespace}
use ndp_auto_offload.Statmon.Host.{Reading}
use ndp_auto_offload.Statmon.Fields.{store_fields, differences}
use ndp_auto_offload.Statmon.Cpu.{
  CpuStat, parse_val, clk_field, read_line, refresh, open_file, update,
}
use ndp_auto_offload.Statmon.Run.{map_state, lift, modify, ◌>>=◌}
use ndp_auto_offload.Statmon.Run.Safe.{
  IsCalm, EndsIn, EndsIn-if, EndsIn-Option, EndsIn-Outcome, IsSafe, EndsIn-map_state, or_err-IsCalm,
  >>=-IsCalm, pure-IsSafe, modify-IsSafe, >>=-IsSafe, safe,
}

pub fit_uint-IsCalm : (m a : ℕ) → IsCalm (fit_uint m release a)
unfolding fit_uint
fit_uint-IsCalm m a = elim (Bool-cases (ltb a m)) [ inl t ↦ rw t tt | inr f ↦ rw f tt ]

pub sub_uint-IsCalm : (m a b : ℕ) → IsCalm (sub_uint m release a b)
unfolding sub_uint
sub_uint-IsCalm m a b = elim (Bool-cases (leb b a)) [ inl t ↦ rw t tt | inr f ↦ rw f tt ]

pub sub_uint_release : (m a b : ℕ) → (r : ℕ) × (sub_uint m release a b ≡ ok r)
unfolding sub_uint
sub_uint_release m a b = (if leb b a then a - b else a + m - b, ground arith)

pub if-IsCalm : (b : Bool) (a : ⊤) (e : Error) → IsCalm (if b then ok a else err e)
if-IsCalm true a e = tt
if-IsCalm false a e = tt

div_uint-IsCalm : (a b : ℕ) → 0 < b → IsCalm (div_uint a b)
unfolding div_uint
div_uint-IsCalm a b h = ground arith

-- Fields written over an array leave its length.
pub store_fields-EndsIn :
    (value : Text → Outcome ℕ) (ts : List Text) (fields : List ℕ)
    → ((t : Text) → IsCalm (value t))
    → EndsIn (λ a. length a ≡ length fields) (store_fields value ts fields)
unfolding store_fields
store_fields-EndsIn value [] fields k = refl
store_fields-EndsIn value (t ∷ ts) [] k = refl
store_fields-EndsIn value (t ∷ ts) (a ∷ fields) k =
    EndsIn-Outcome _ (value t) (λ v. map_state (λ r. v ∷ r) (store_fields value ts fields))
      (a ∷ fields) (k t)
      (λ v.
        EndsIn-map_state (λ b. length b ≡ length fields) (λ b. length b ≡ suc (length fields))
          (λ r. v ∷ r) (store_fields value ts fields) (store_fields-EndsIn value ts fields k)
          (λ b e. ap suc e))
      refl

abbrev pub IsSized : CpuStat → Type 0
IsSized c = (length c.cpu_totals ≡ 10) × (length c.cpu_totals_last ≡ 10)

clk_field-IsCalm : (ms : ℕ) (t : Text) → IsCalm (clk_field release ms t)
unfolding clk_field parse_val
clk_field-IsCalm ms t =
    >>=-IsCalm (parse_val t) _ (or_err-IsCalm _ _) (λ val. fit_uint-IsCalm u64_mod (val * ms))

-- A line with one number on it.
val-IsSafe :
    (valstr : Text) (set_val : ℕ → CpuStat → CpuStat)
    → ((val : ℕ) (c : CpuStat) → IsSized c → IsSized (set_val val c))
    → IsSafe IsSized (lift (parse_val (trim valstr)) >>= λ val. modify (set_val val))
unfolding parse_val
val-IsSafe valstr set_val k = search (safe, k) depth 8

read_line-IsSafe : (line : Text) → IsSafe IsSized (read_line release line)
unfolding read_line parse_val
read_line-IsSafe line = record {
  run = λ c h.
      EndsIn-if IsSized (starts_with (codes "cpu ") line) _ _
        (EndsIn-map_state (λ a. length a ≡ length c.cpu_totals) IsSized
          (λ a. record c { cpu_totals = a })
          (store_fields (clk_field release c.ms_per_clk) (drop 1 (split_whitespace line))
            c.cpu_totals)
          (store_fields-EndsIn (clk_field release c.ms_per_clk) _ c.cpu_totals
            (clk_field-IsCalm c.ms_per_clk))
          (λ a e. (e ∙ h.0, h.1)))
        (EndsIn-Option IsSized (strip_prefix (codes "ctxt ") line) _ _
          (EndsIn-Option IsSized (strip_prefix (codes "procs_running ") line) _ _
            (EndsIn-Option IsSized (strip_prefix (codes "procs_blocked ") line) _ _
              ((pure-IsSafe tt).run c h)
              (λ v.
                (val-IsSafe v (λ val c. record c { procs_io_blocked = val }) (λ val c k. k)).run c
                  h))
            (λ v.
              (val-IsSafe v (λ val c. record c { procs_running = val }) (λ val c k. k)).run c h))
          (λ v.
            (val-IsSafe v (λ val c. record c { context_switches_now = val }) (λ val c k. k)).run c
              h));
}

refresh-IsSafe : (text : Option Text) → IsSafe IsSized (refresh release text)
unfolding refresh
refresh-IsSafe text =
    >>=-IsSafe _ _ (modify-IsSafe _ (λ c h. (h.0, h.0)))
      λ _. search (safe, read_line-IsSafe) depth 8

open_file-IsSafe :
    (clk_tck : ℕ) (r : Reading) → 0 < clk_tck → IsSafe IsSized (open_file release clk_tck r)
unfolding open_file
open_file-IsSafe clk_tck r h = search (safe, refresh-IsSafe, if-IsCalm, div_uint-IsCalm, h) depth 10

-- In a release build on a host whose clock has ticks, an update ends without a panic, whatever the
-- text of /proc/stat is, and both arrays keep their ten entries.
pub update-IsSafe :
    (clk_tck : ℕ) (r : Reading) → 0 < clk_tck → IsSafe IsSized (update release clk_tck r)
unfolding update
update-IsSafe clk_tck r h = search (safe, refresh-IsSafe, open_file-IsSafe, h) depth 8

-- The differences of two arrays of one length: no panic, and as many of them.
pub differences-length :
    (now last : List ℕ)
    → length now ≡ length last
    → (ds : List ℕ) × (differences release now last ≡ ok ds) × (length ds ≡ length now)
unfolding differences
differences-length [] last h = ([], refl, refl)
differences-length (a ∷ now) [] h = absurd (omega arith)
differences-length (a ∷ now) (b ∷ last) h =
    let (ds, e, l) = differences-length now last (omega arith) in
    let (d, f) = sub_uint_release u64_mod a b in (d ∷ ds, rw (f, e) refl, ap suc l)
