-- ===== src/Faasmspeed/FunctionReport/Sums.antt =====
-- The sums of what faasmspeed/src/main.rs reports of each function: sorting and the intervals keep
-- them within bounds.
use ndp_auto_offload.Base.{
  refl, ap, inl, inr, Bool-cases, ◌∙◌, ◌≡◌, arith, ℕ, suc, ◌+◌, ◌-◌, ◌*◌, ◌≤◌, ltb, List, [], ◌∷◌,
  map, length, All,
}
use ndp_auto_offload.Faasmspeed.Report.Quantiles.{IsSorted, total}
use ndp_auto_offload.Faasmspeed.Results.{RequestResult, insert_by, sort_by_key, fill_first}
use ndp_auto_offload.Faasmspeed.Results.Sorting.{sort_by_key_lem}
use ndp_auto_offload.Faasmspeed.Results.Intervals.{started, gaps, spaced}

module _ (by key : RequestResult → ℕ) where
  total-insert :
      (r : RequestResult) (rs : List RequestResult)
      → total (map key (insert_by by r rs)) ≡ key r + total (map key rs)
  unfolding total insert_by
  total-insert r [] = refl
  total-insert r (s ∷ rs) = ground (arith, total-insert r rs)

  pub total-sort_by_key :
      (rs : List RequestResult) → total (map key (sort_by_key by rs)) ≡ total (map key rs)
  unfolding total sort_by_key
  total-sort_by_key [] = refl
  total-sort_by_key (r ∷ rs) =
      omega (arith, total-insert r (sort_by_key by rs), total-sort_by_key rs)

module _ (by : RequestResult → ℕ) (P : RequestResult → Type 0) where
  All-insert_by :
      (r : RequestResult) (rs : List RequestResult) → P r → All P rs → All P (insert_by by r rs)
  unfolding insert_by
  All-insert_by r [] h k = (h, tt)
  All-insert_by r (s ∷ rs) h k = elim (Bool-cases (ltb (by s) (by r))) [
    | inl less ↦ rw less (k.0, All-insert_by r rs h k.1)
    | inr more ↦ rw more (h, k)
  ]

  All-sort_by_key : (rs : List RequestResult) → All P rs → All P (sort_by_key by rs)
  unfolding sort_by_key
  All-sort_by_key [] k = tt
  All-sort_by_key (r ∷ rs) k = All-insert_by r (sort_by_key by rs) k.0 (All-sort_by_key rs k.1)

length-insert_by :
    (by : RequestResult → ℕ) (r : RequestResult) (rs : List RequestResult)
    → length (insert_by by r rs) ≡ suc (length rs)
unfolding insert_by
length-insert_by by r [] = refl
length-insert_by by r (s ∷ rs) = ground (arith, length-insert_by by r rs)

pub length-sort_by_key :
    (by : RequestResult → ℕ) (rs : List RequestResult) → length (sort_by_key by rs) ≡ length rs
unfolding sort_by_key
length-sort_by_key by [] = refl
length-sort_by_key by (r ∷ rs) =
    omega (arith, length-insert_by by r (sort_by_key by rs), length-sort_by_key by rs)

-- A measure that does not read the start time is kept by the intervals.
module _ (key : RequestResult → ℕ)
    (blind : (r : RequestResult) (d : ℕ) → key (record r { start_time = d }) ≡ key r) where
  total-gaps :
      (last : ℕ) (rs : List RequestResult) → total (map key (gaps last rs)) ≡ total (map key rs)
  unfolding total gaps
  total-gaps last [] = refl
  total-gaps last (r ∷ rs) =
      omega (arith, blind r (r.start_time - last), total-gaps r.start_time rs)

  total-spaced : (rs : List RequestResult) → total (map key (spaced rs)) ≡ total (map key rs)
  unfolding total spaced
  total-spaced [] = refl
  total-spaced (r ∷ rs) = omega (arith, total-gaps r.start_time rs)

  total-fill_first :
      (rs : List RequestResult) → total (map key (fill_first rs)) ≡ total (map key rs)
  unfolding total fill_first
  total-fill_first [] = refl
  total-fill_first (r ∷ []) = refl
  total-fill_first (r ∷ s ∷ []) = refl
  total-fill_first (r ∷ s ∷ t ∷ rs) = omega (arith, blind r s.start_time)

  pub total_kept :
      (rs : List RequestResult)
      → total (map key (sort_by_key started (fill_first (spaced (sort_by_key started rs)))))
        ≡ total (map key rs)
  total_kept rs =
      total-sort_by_key started key (fill_first (spaced (sort_by_key started rs)))
      ∙ total-fill_first (spaced (sort_by_key started rs))
      ∙ total-spaced (sort_by_key started rs)
      ∙ total-sort_by_key started key rs

length-gaps : (last : ℕ) (rs : List RequestResult) → length (gaps last rs) ≡ length rs
unfolding gaps
length-gaps last [] = refl
length-gaps last (r ∷ rs) = ap suc (length-gaps r.start_time rs)

length-spaced : (rs : List RequestResult) → length (spaced rs) ≡ length rs
unfolding spaced
length-spaced [] = refl
length-spaced (r ∷ rs) = ap suc (length-gaps r.start_time rs)

length-fill_first : (rs : List RequestResult) → length (fill_first rs) ≡ length rs
unfolding fill_first
length-fill_first [] = refl
length-fill_first (r ∷ []) = refl
length-fill_first (r ∷ s ∷ []) = refl
length-fill_first (r ∷ s ∷ t ∷ rs) = refl

pub length_kept :
    (rs : List RequestResult)
    → length (sort_by_key started (fill_first (spaced (sort_by_key started rs)))) ≡ length rs
length_kept rs =
    length-sort_by_key started (fill_first (spaced (sort_by_key started rs)))
    ∙ length-fill_first (spaced (sort_by_key started rs))
    ∙ length-spaced (sort_by_key started rs)
    ∙ length-sort_by_key started rs

-- The intervals fill the time up to the last start.
module _ (m : ℕ) where
  gaps_below :
      (r : RequestResult) (rs : List RequestResult)
      → IsSorted (map started (r ∷ rs))
      → All (λ s. started s ≤ m) (r ∷ rs)
      → started r + total (map started (gaps r.start_time rs)) ≤ m
  unfolding total gaps
  gaps_below r [] h k = omega (arith, k.0)
  gaps_below r (s ∷ rs) h k = omega (arith, h.0, gaps_below s rs h.1 k.1)

  spaced_below :
      (rs : List RequestResult)
      → IsSorted (map started rs)
      → All (λ s. started s ≤ m) rs
      → total (map started (fill_first (spaced rs))) ≤ 2 * m
  unfolding total spaced fill_first gaps
  spaced_below [] h k = omega arith
  spaced_below (r ∷ []) h k = omega (arith, k.0)
  spaced_below (r ∷ s ∷ []) h k = omega (arith, gaps_below r (s ∷ []) h k)
  spaced_below (r ∷ s ∷ t ∷ rs) h k = omega (arith, h.0, gaps_below r (s ∷ t ∷ rs) h k)

  pub intervals_below :
      (rs : List RequestResult)
      → All (λ s. started s ≤ m) rs
      → total (map started (sort_by_key started (fill_first (spaced (sort_by_key started rs)))))
        ≤ 2 * m
  intervals_below rs k =
      let sorted = sort_by_key started rs in
      omega (
        arith,
        total-sort_by_key started started (fill_first (spaced sorted)),
        spaced_below sorted (sort_by_key_lem started rs).0 (All-sort_by_key started _ rs k),
      )
