-- ===== src/Statmon/Range.antt =====
-- A range of the monitor, at one integer statistic: the reset, and the aggregation of each update,
-- of `struct Stat` in statmon/src/stats.rs, against a description of the values observed.
use mathlib.Core.List.{Memᴰ}
use mathlib.Core.List.Memᴰ.{head, tail, cases_cons}
use ndp_auto_offload.Base.{
  ℕ, suc, ◌+◌, ◌<◌, ◌^◌, ◌≡◌, refl, ◌∙◌, ap, ◌⊎◌, inl, inr, arith, List, [], ◌∷◌, length, All,
  Outcome, ok, ◌>>=◌,
}
use ndp_auto_offload.Base.Int.{ℤ, pos, ◌+ℤ◌, ◌≤ℤ◌, min_ℤ, max_ℤ, int_laws}
use ndp_auto_offload.Base.Words.{
  Profile, release, IsI64, wrap_i64, fit_i64-eq-wrap, as_i64, pattern64, i64_max, i64_min, fit_i64,
}
use ndp_auto_offload.Text.{Text}
use ndp_auto_offload.Statmon.Value.{
  FloatOps, int, minval, maxval, zeroval, set_min, set_max, set_add,
}
use ndp_auto_offload.Statmon.Stat.{Stat, reset, update_aggregate}

-- Wrapping a sum twice is wrapping it once.
wrap_i64-wrap_i64 : (a b : ℤ) → wrap_i64 (wrap_i64 a +ℤ b) ≡ wrap_i64 (a +ℤ b)
unfolding as_i64 pattern64 ◌+ℤ◌
wrap_i64-wrap_i64 a b = ground arith

unfoldable pub total : List ℤ → ℤ
total [] = pos 0
total (v ∷ vs) = v +ℤ total vs

+ℤ_assoc : (a b c : ℤ) → (a +ℤ b) +ℤ c ≡ a +ℤ (b +ℤ c)
+ℤ_assoc a b c = omega int_laws

-- What one update of a range does to a statistic: its value is stored, and aggregated.
unfoldable pub observe : {F : Type 0} ⦃fl : FloatOps F⦄ → Profile → Stat F → ℤ → Outcome (Stat F)
observe p s v = update_aggregate p (record s { value_now = int v })

unfoldable pub observe_all :
    {F : Type 0} ⦃fl : FloatOps F⦄ → Profile → Stat F → List ℤ → Outcome (Stat F)
observe_all p s [] = ok s
observe_all p s (v ∷ vs) = do t ← observe p s v; observe_all p t vs

-- The least value of a list, from a first one; likewise the greatest.
least : ℤ → List ℤ → ℤ
least m [] = m
least m (v ∷ vs) = least (min_ℤ m v) vs

greatest : ℤ → List ℤ → ℤ
greatest m [] = m
greatest m (v ∷ vs) = greatest (max_ℤ m v) vs

newest : ℤ → List ℤ → ℤ
newest m [] = m
newest m (v ∷ vs) = newest v vs

min_ℤ_cases : (a b : ℤ) → (min_ℤ a b ≡ a) ⊎ (min_ℤ a b ≡ b)
min_ℤ_cases a b = ground arith

max_ℤ_cases : (a b : ℤ) → (max_ℤ a b ≡ a) ⊎ (max_ℤ a b ≡ b)
max_ℤ_cases a b = ground arith

least-Mem : (m : ℤ) (vs : List ℤ) → Memᴰ (least m vs) (m ∷ vs)
unfolding least
least-Mem m [] = head refl
least-Mem m (v ∷ vs) = elim (cases_cons (least-Mem (min_ℤ m v) vs)) [
  | inl e ↦ elim (min_ℤ_cases m v) [ inl c ↦ head (e ∙ c) | inr c ↦ tail (head (e ∙ c)) ]
  | inr later ↦ tail (tail later)
]

greatest-Mem : (m : ℤ) (vs : List ℤ) → Memᴰ (greatest m vs) (m ∷ vs)
unfolding greatest
greatest-Mem m [] = head refl
greatest-Mem m (v ∷ vs) = elim (cases_cons (greatest-Mem (max_ℤ m v) vs)) [
  | inl e ↦ elim (max_ℤ_cases m v) [ inl c ↦ head (e ∙ c) | inr c ↦ tail (head (e ∙ c)) ]
  | inr later ↦ tail (tail later)
]

least-le : (m : ℤ) (vs : List ℤ) → (least m vs ≤ℤ m) × All (λ v. least m vs ≤ℤ v) vs
unfolding least
least-le m [] = (omega arith, tt)
least-le m (v ∷ vs) = ground (arith, least-le (min_ℤ m v) vs)

greatest-ge : (m : ℤ) (vs : List ℤ) → (m ≤ℤ greatest m vs) × All (λ v. v ≤ℤ greatest m vs) vs
unfolding greatest
greatest-ge m [] = (omega arith, tt)
greatest-ge m (v ∷ vs) = ground (arith, greatest-ge (max_ℤ m v) vs)

-- An integer statistic in a range.
abbrev spanned : {F : Type 0} → Text → ℤ → ℤ → ℤ → ℤ → ℕ → Stat F
spanned name now lo hi sum n = record {
  name = name;
  value_now = int now;
  value_min = int lo;
  value_max = int hi;
  value_sum = int (wrap_i64 sum);
  value_cnt = pos n;
}

count_fits : (p : Profile) (n : ℕ) → suc n < 2 ^ 63 → fit_i64 p (pos n +ℤ pos 1) ≡ ok (pos (suc n))
unfolding fit_i64 ◌+ℤ◌
count_fits p n h = ground arith

module _ {F : Type 0} ⦃fl : FloatOps F⦄ where
  observe_lem :
      (name : Text) (now lo hi a v : ℤ) (n : ℕ)
      → suc n < 2 ^ 63
      → observe {F = F} release (spanned name now lo hi a n) v
        ≡ ok (spanned name v (min_ℤ lo v) (max_ℤ hi v) (a +ℤ v) (suc n))
  unfolding observe update_aggregate set_min set_max set_add
  observe_lem name now lo hi a v n h =
      rw (fit_i64-eq-wrap (wrap_i64 a +ℤ v), wrap_i64-wrap_i64 a v, count_fits release n h) refl

  observe_all_lem :
      (name : Text) (now lo hi a : ℤ) (n : ℕ) (vs : List ℤ)
      → n + length vs < 2 ^ 63
      → observe_all {F = F} release (spanned name now lo hi a n) vs
        ≡ ok (
            spanned name
              (newest now vs)
              (least lo vs)
              (greatest hi vs)
              (a +ℤ total vs)
              (n + length vs))
  unfolding observe_all least greatest newest total
  observe_all_lem name now lo hi a n [] fits =
      let e1 : a +ℤ pos 0 ≡ a = omega int_laws in
      let e2 : n + 0 ≡ n = omega arith in rw (e1, e2) refl
  observe_all_lem name now lo hi a n (v ∷ vs) fits =
      let e : suc n + length vs ≡ n + suc (length vs) = omega arith in
      rw (observe_lem name now lo hi a v n (omega arith), ← +ℤ_assoc a v (total vs), ← e)
        (observe_all_lem name v (min_ℤ lo v) (max_ℤ hi v) (a +ℤ v) (suc n) vs (omega arith))

min_first : (v : ℤ) → IsI64 v → min_ℤ i64_max v ≡ v
min_first v h = ground arith

max_first : (v : ℤ) → IsI64 v → max_ℤ i64_min v ≡ v
max_first v h = ground arith

-- What a range promises of a statistic that had the values `vs` in it: the least and the greatest of
-- them, their sum as an i64, and their number.
pub record IsRange {F : Type 0} (vs : List ℤ) (t : Stat F) : Type 0 where
  pub low : (m : ℤ) × (t.value_min ≡ int m) × Memᴰ m vs × All (λ v. m ≤ℤ v) vs
  pub high : (m : ℤ) × (t.value_max ≡ int m) × Memᴰ m vs × All (λ v. v ≤ℤ m) vs
  pub sum : t.value_sum ≡ int (wrap_i64 (total vs))
  pub cnt : t.value_cnt ≡ pos (length vs)

module _ {F : Type 0} ⦃fl : FloatOps F⦄ where
  reset_lem :
      (s : Stat F) (u : ℤ)
      → s.value_now ≡ int u
      → reset s ≡ spanned s.name u i64_max i64_min (pos 0) 0
  unfolding reset minval maxval zeroval as_i64 pattern64
  reset_lem s u e = ground arith

  -- From a reset on, in a release build, an integer statistic that is updated with fewer than 2 ^
  -- 63 values, of which there is a first and that is in the range of i64, has the least and the
  -- greatest of them, their sum modulo 2 ^ 64 as an i64, and their number.
  pub observe_all-IsRange :
      (s : Stat F) (u v : ℤ) (vs : List ℤ)
      → s.value_now ≡ int u
      → IsI64 v
      → suc (length vs) < 2 ^ 63
      → (t : Stat F) × (observe_all release (reset s) (v ∷ vs) ≡ ok t) × IsRange (v ∷ vs) t
  unfolding least greatest newest
  observe_all-IsRange s u v vs e h fits = (
    spanned s.name (newest u (v ∷ vs)) (least i64_max (v ∷ vs)) (greatest i64_min (v ∷ vs))
        (pos 0 +ℤ total (v ∷ vs)) (0 + length (v ∷ vs)),
    rw (reset_lem s u e)
        (observe_all_lem s.name u i64_max i64_min (pos 0) 0 (v ∷ vs) (omega arith)),
    record {
      low =
          (least v vs, ap (λ m. int (least m vs)) (min_first v h), least-Mem v vs, (least-le v vs));
      high = (
        greatest v vs,
        ap (λ m. int (greatest m vs)) (max_first v h),
        greatest-Mem v vs,
        (greatest-ge v vs),
      );
      sum =
          let z : pos 0 +ℤ total (v ∷ vs) ≡ total (v ∷ vs) = omega int_laws in
          ap (λ a. int (wrap_i64 a)) z;
      cnt = ap pos (omega arith);
    },
  )
