-- ===== src/Faasmspeed/Schedule/Plain.antt =====
-- The loop of the generator as a recursion on plain numbers, where the denominator is positive and
-- below the largest i32. Two turns of fuel are enough for its `while`.
use mathlib.Core.Option
use native.Mathlib.Nat.{mod-add-mod, mod-eq_of_lt, add-zero}
use ndp_auto_offload.Base.{
  ℕ, zero, suc, ◌+◌, ◌-◌, ◌%◌, ◌^◌, ◌≤◌, ◌<◌, ◌≡◌, refl, ◌∙◌, sym, ap, leb, ◌==◌, if◌then◌else◌,
  arith, inl, inr, Bool-cases, some, ok, List, [], ◌∷◌, length, get_elem?, not, ◌||◌,
}
use ndp_auto_offload.Base.Int.{ℤ, pos, negsuc, pos_part, ◌+ℤ◌, ◌-ℤ◌, ltb_ℤ}
use ndp_auto_offload.Base.Words.{Profile, fit_i32}
use ndp_auto_offload.Faasmspeed.Schedule.Cycle.{wrap, hits}
use ndp_auto_offload.Faasmspeed.Schedule.{
  reduce, Generator, Plan, Choice, force_ndp, choose, pick, next_request, requests,
}

-- The counter fits: it takes no step past the largest i32.
fit_small : (p : Profile) (v : ℕ) → v < 2 ^ 31 → fit_i32 p (pos v) ≡ ok (pos v)
unfolding fit_i32
fit_small p v h = ground arith

reduce_within :
    (f : ℕ) (p : Profile) (d v : ℕ) → v ≤ d → reduce (suc f) p (pos d) (pos v) ≡ some (ok (pos v))
unfolding reduce
reduce_within f p d v h = ground arith

reduce_over :
    (f : ℕ) (p : Profile) (d : ℕ)
    → 0 < d
    → reduce (suc (suc f)) p (pos d) (pos (suc d)) ≡ some (ok (pos 1))
unfolding reduce ◌-ℤ◌ fit_i32
reduce_over f p d h = ground arith

-- One turn of the `while` is enough.
reduce_lem :
    (f : ℕ) (p : Profile) (d v : ℕ)
    → 0 < d
    → v ≤ d
    → reduce (suc (suc f)) p (pos d) (pos (suc v)) ≡ some (ok (pos (suc (wrap d v))))
reduce_lem f p d v pd h = elim (Bool-cases (v == d)) [
  | inl full ↦ ground (arith, reduce_over f p d pd)
  | inr more ↦ rw more (reduce_within (suc f) p d (suc v) (ground arith))
]

plus_one : (v : ℕ) → pos v +ℤ pos 1 ≡ pos (suc v)
unfolding ◌+ℤ◌
plus_one v = ground arith

-- The number of requests that may be offloaded.
unfoldable pub offered : List Choice → ℕ
offered [] = 0
offered ((which, allow_ndp) ∷ cs) = if allow_ndp then suc (offered cs) else offered cs

allowed-eq-leb :
    (num : ℤ) (d u : ℕ)
    → u < d
    → (not (ltb_ℤ num (pos (suc u))) || ltb_ℤ (pos d) num) ≡ leb (suc u) (pos_part num)
allowed-eq-leb (pos k) d u h = ground arith
allowed-eq-leb (negsuc k) d u h = ground arith

next_which : (w len : ℕ) → w < len → (if w + 1 == len then 0 else w + 1) ≡ (w + 1) % len
next_which w len h = grind arith

module _ (f : ℕ) (p : Profile) (plan : Plan) (d : ℕ) (den : plan.offload_frac_den ≡ pos d)
    (pd : 0 < d) (small : d < 2 ^ 31 - 1) where
  next_request_lem :
      (g : Generator) (v : ℕ)
      → g.ndp_var ≡ pos v
      → v ≤ d
      → g.which_request < plan.pool_len
      → next_request (suc (suc f)) p plan g ≡ some (ok (choose plan g (pos (suc (wrap d v)))))
  unfolding next_request pick
  next_request_lem g v e h w =
      ground (arith, plus_one v, fit_small p (suc v) (omega arith), reduce_lem f p d v pd h)

  -- The requests that follow when `ndp_var` is `v`, on the numbers alone.
  pub plain_run : ℕ → ℕ → Generator → List Choice × Generator
  plain_run zero v g = ([], g)
  plain_run (suc n) v g =
      let (c, g') = choose plan g (pos (suc (wrap d v))) in
      let (cs, last) = plain_run n (suc (wrap d v)) g' in (c ∷ cs, last)

  choose-which :
      (g : Generator) (x : ℤ)
      → g.which_request < plan.pool_len
      → (choose plan g x).1.which_request < plan.pool_len
  unfolding choose
  choose-which g x h = ground arith

  pub requests_lem :
      (n v : ℕ) (g : Generator)
      → g.ndp_var ≡ pos v
      → v ≤ d
      → g.which_request < plan.pool_len
      → requests (suc (suc f)) p plan n g ≡ some (ok (plain_run n v g))
  unfolding requests plain_run
  requests_lem zero v g e h w = refl
  requests_lem (suc n) v g e h w =
      let x = pos (suc (wrap d v)) in
      let g' = (choose plan g x).1 in
      ground (
        arith,
        next_request_lem g v e h w,
        requests_lem n (suc (wrap d v)) g' (unfold choose in refl) (ground arith)
            (choose-which g x w),
      )

  choose-allowed :
      (g : Generator) (u : ℕ)
      → u < d
      → (choose plan g (pos (suc u))).0.1 ≡ leb (suc u) (pos_part plan.offload_frac_num)
  unfolding choose force_ndp
  choose-allowed g u h = rw den (allowed-eq-leb plan.offload_frac_num d u h)

  choose-ndp :
      (g : Generator) (u : ℕ)
      → u < d
      → (choose plan g (pos (suc u))).1.ndp_requests
        ≡ g.ndp_requests + (if leb (suc u) (pos_part plan.offload_frac_num) then 1 else 0)
  unfolding choose
  choose-ndp g u h = let allowed = choose-allowed g u h in rw allowed (ground arith)

  wrap-lt : (v : ℕ) → v ≤ d → wrap d v < d
  wrap-lt v h = ground arith

  -- The counter of the shared state counts the hits of the sequence.
  pub plain_run-ndp :
      (n v : ℕ) (g : Generator)
      → v ≤ d
      → (plain_run n v g).1.ndp_requests
        ≡ g.ndp_requests + hits d (pos_part plan.offload_frac_num) n (wrap d v)
  unfolding plain_run hits
  plain_run-ndp zero v g h = omega arith
  plain_run-ndp (suc n) v g h =
      let u = wrap d v in
      omega (
        arith,
        plain_run-ndp n (suc u) (choose plan g (pos (suc u))).1 (wrap-lt v h),
        choose-ndp g u (wrap-lt v h),
      )

  pub plain_run-offered :
      (n v : ℕ) (g : Generator)
      → v ≤ d
      → offered (plain_run n v g).0 ≡ hits d (pos_part plan.offload_frac_num) n (wrap d v)
  unfolding plain_run hits offered
  plain_run-offered zero v g h = refl
  plain_run-offered (suc n) v g h =
      let u = wrap d v in
      ground (
        arith,
        plain_run-offered n (suc u) (choose plan g (pos (suc u))).1 (wrap-lt v h),
        choose-allowed g u (wrap-lt v h),
      )

  pub plain_run-length : (n v : ℕ) (g : Generator) → length (plain_run n v g).0 ≡ n
  unfolding plain_run
  plain_run-length zero v g = refl
  plain_run-length (suc n) v g = ap suc (plain_run-length n _ _)

  choose-next :
      (g : Generator) (x : ℤ) (i : ℕ)
      → g.which_request < plan.pool_len
      → ((choose plan g x).1.which_request + i) % plan.pool_len
        ≡ (g.which_request + suc i) % plan.pool_len
  unfolding choose
  choose-next g x i w =
      ap (λ n. (n + i) % plan.pool_len) (next_which g.which_request plan.pool_len w)
      ∙ mod-add-mod (g.which_request + 1) plan.pool_len i
      ∙ ap (λ n. n % plan.pool_len) (omega arith)

  pub plain_run-which :
      (n v i : ℕ) (g : Generator)
      → g.which_request < plan.pool_len
      → i < n
      → Option.map (λ c. c.0) (get_elem? (plain_run n v g).0 i)
        ≡ some ((g.which_request + i) % plan.pool_len)
  unfolding plain_run
  plain_run-which zero v i g w h = elim h [ ]
  plain_run-which (suc n) v zero g w h =
      unfold choose in
      ap some (sym (ap (λ n. n % plan.pool_len) (add-zero g.which_request) ∙ mod-eq_of_lt w))
  plain_run-which (suc n) v (suc i) g w h =
      let x = pos (suc (wrap d v)) in
      plain_run-which n (suc (wrap d v)) i (choose plan g x).1 (choose-which g x w) (omega arith)
      ∙ ap (λ r. some r) (choose-next g x i w)
