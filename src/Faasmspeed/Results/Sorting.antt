-- ===== src/Faasmspeed/Results/Sorting.antt =====
-- The sorting of the results in `async_main` of faasmspeed/src/main.rs.
use mathlib.Core.List.{Perm}
use mathlib.Core.List.Perm
use ndp_auto_offload.Base.{ℕ, ◌≤◌, arith, List, [], ◌∷◌, map, ltb, Bool-cases, inl, inr}
use ndp_auto_offload.Faasmspeed.Report.Quantiles.{IsSorted}
use ndp_auto_offload.Faasmspeed.Results.{RequestResult, insert_by, sort_by_key}

module _ (key : RequestResult → ℕ) where
  -- A value in front of a sorted list that is at most its first.
  IsSorted-cons :
      (r s : RequestResult) (rs : List RequestResult)
      → key s ≤ key r
      → IsSorted (map key (s ∷ rs))
      → IsSorted (map key (s ∷ insert_by key r rs))
  unfolding insert_by
  IsSorted-cons r s [] h k = ground arith
  IsSorted-cons r s (t ∷ rs) h k = elim (Bool-cases (ltb (key t) (key r))) [
    | inl less ↦ rw less (k.0, IsSorted-cons r t rs (ground arith) k.1)
    | inr more ↦ rw more (h, (ground arith, k.1))
  ]

  insert_by-IsSorted :
      (r : RequestResult) (rs : List RequestResult)
      → IsSorted (map key rs)
      → IsSorted (map key (insert_by key r rs))
  unfolding insert_by
  insert_by-IsSorted r [] h = tt
  insert_by-IsSorted r (s ∷ rs) h = elim (Bool-cases (ltb (key s) (key r))) [
    | inl less ↦ rw less (IsSorted-cons r s rs (ground arith) h)
    | inr more ↦ rw more (ground arith, h)
  ]

  sort-IsSorted : (rs : List RequestResult) → IsSorted (map key (sort_by_key key rs))
  unfolding sort_by_key
  sort-IsSorted [] = tt
  sort-IsSorted (r ∷ rs) = insert_by-IsSorted r (sort_by_key key rs) (sort-IsSorted rs)

  insert_by-perm :
      (r : RequestResult) (rs : List RequestResult) → Perm (insert_by key r rs) (r ∷ rs)
  unfolding insert_by
  insert_by-perm r [] = Perm.refl (r ∷ [])
  insert_by-perm r (s ∷ rs) = elim (Bool-cases (ltb (key s) (key r))) [
    | inl less ↦ rw less (Perm.trans (Perm.cons s (insert_by-perm r rs)) (Perm.swap r s rs))
    | inr more ↦ rw more (Perm.refl (r ∷ s ∷ rs))
  ]

  sort-perm : (rs : List RequestResult) → Perm (sort_by_key key rs) rs
  unfolding sort_by_key
  sort-perm [] = Perm.refl []
  sort-perm (r ∷ rs) =
      Perm.trans (insert_by-perm r (sort_by_key key rs)) (Perm.cons r (sort-perm rs))

  -- Sorting by a key leaves the same results, in the order of the key.
  pub sort_by_key_lem :
      (rs : List RequestResult)
      → IsSorted (map key (sort_by_key key rs)) × Perm (sort_by_key key rs) rs
  sort_by_key_lem rs = (sort-IsSorted rs, sort-perm rs)
