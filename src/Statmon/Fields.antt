-- ===== src/Statmon/Fields.antt =====
-- The arrays of counters that cpustat.rs and iostat.rs share the shape of: the fields of a line
-- are written over an array, and the change since the last reading is an array of differences.
use ndp_auto_offload.Base.{⊤, ℕ, List, [], ◌∷◌, Outcome, ok, err, panic, ◌>>=◌}
use ndp_auto_offload.Base.Words.{Profile, sub_uint, u64_mod}
use ndp_auto_offload.Text.{Text}
use ndp_auto_offload.Statmon.Run.{Run, returns, fails, panics, map_state}

-- `for (val, field) in fields.zip(array.iter_mut())`: what stands before a bad field is written.
unfoldable pub store_fields : (Text → Outcome ℕ) → List Text → List ℕ → Run (List ℕ) ⊤
store_fields value [] fields = returns tt fields
store_fields value (t ∷ ts) [] = returns tt []
store_fields value (t ∷ ts) (a ∷ fields) =
    let rest = store_fields value ts fields in
    elim (value t) [
      | ok v ↦ map_state (λ r. v ∷ r) rest
      | err e ↦ fails e (a ∷ fields)
      | panic p ↦ panics p
    ]

-- `self.totals[i] - self.totals_last[i]`, in u64
unfoldable pub differences : Profile → List ℕ → List ℕ → Outcome (List ℕ)
differences p (a ∷ now) (b ∷ last) = do
  d ← sub_uint u64_mod p a b
  ds ← differences p now last
  ok (d ∷ ds)
differences p _ _ = ok []
