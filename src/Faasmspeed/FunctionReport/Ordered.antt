-- ===== src/Faasmspeed/FunctionReport/Ordered.antt =====
-- The report of a function in faasmspeed/src/main.rs is made, and each of its parts is in order.
use ndp_auto_offload.Base.{
  refl, ◌≡◌, arith, ℕ, ◌+◌, ◌^◌, ◌≤◌, ◌<◌, List, [], ◌∷◌, ◌++◌, map, length, length-map,
  length-append, All, ok,
}
use ndp_auto_offload.Base.Words.{release, u128_mod}
use ndp_auto_offload.Faasmspeed.Report.{Summary, print_stats}
use ndp_auto_offload.Faasmspeed.Report.Quantiles.{IsSorted, IsOrdered, total, print_stats-IsOrdered}
use ndp_auto_offload.Faasmspeed.Results.{
  RequestResult, Response, received, failed, divide, sort_by_key, fill_first,
}
use ndp_auto_offload.Faasmspeed.Results.Sorting.{sort_by_key_lem}
use ndp_auto_offload.Faasmspeed.Results.Intervals.{started, spaced, intervals_lem}
use ndp_auto_offload.Faasmspeed.FunctionReport.{FunctionReport, function_report}
use ndp_auto_offload.Faasmspeed.FunctionReport.Sums.{
  total-sort_by_key, length-sort_by_key, total_kept, length_kept, intervals_below,
}

abbrev Printed : List ℕ → Type 0
Printed xs = (s : Summary) × (print_stats release xs ≡ ok s) × IsOrdered s

printed : (xs : List ℕ) → 0 < length xs → IsSorted xs → total xs < u128_mod → Printed xs
printed [] some h fits = elim none [ ]
  where
    none : ⊥
    none = omega (arith, some)
printed (x ∷ xs) some h fits = print_stats-IsOrdered x xs h fits

sorted-Printed :
    (key : RequestResult → ℕ) (rs : List RequestResult)
    → 0 < length rs
    → total (map key rs) < u128_mod
    → Printed (map key (sort_by_key key rs))
sorted-Printed key rs some fits =
    printed (map key (sort_by_key key rs))
      (omega (arith, some, length-map key (sort_by_key key rs), length-sort_by_key key rs))
      (sort_by_key_lem key rs).0 (omega (arith, fits, total-sort_by_key key key rs))

abbrev by_interval : List RequestResult → List RequestResult
by_interval rs = sort_by_key started (fill_first (spaced (sort_by_key started rs)))

-- What is measured fits a u128, also in sum.
pub record Fits (rs : List RequestResult) : Type 0 where
  pub starts : All (λ r. r.start_time ≤ 2 ^ 126) rs
  pub requests : total (map (λ r. r.us_request) rs) < u128_mod
  pub statuses : total (map (λ r. r.us_status) rs) < u128_mod
  pub sizes : total (map (λ r. r.num_bytes) rs) < u128_mod

module _ (rs : List RequestResult) (some : 0 < length rs) (fits : Fits rs) where
  abbrev first : List RequestResult
  first = by_interval rs

  abbrev second : List RequestResult
  second = sort_by_key (λ r. r.us_request) first

  abbrev third : List RequestResult
  third = sort_by_key (λ r. r.us_status) second

  intervals-Printed : Printed (map started first)
  intervals-Printed =
      printed (map started first) (omega (arith, some, length-map started first, length_kept rs))
        (sort_by_key_lem started _).0 (omega (arith, intervals_below (2 ^ 126) rs fits.starts))

  latency-Printed : Printed (map (λ r. r.us_request) second)
  latency-Printed =
      sorted-Printed (λ r. r.us_request) first (omega (arith, some, length_kept rs))
        (omega (arith, fits.requests, total_kept (λ r. r.us_request) (λ r d. refl) rs))

  status-Printed : Printed (map (λ r. r.us_status) third)
  status-Printed =
      sorted-Printed (λ r. r.us_status) second
        (omega (arith, some, length_kept rs, length-sort_by_key (λ r. r.us_request) first))
        (omega (
          arith,
          fits.statuses,
          total-sort_by_key (λ r. r.us_request) (λ r. r.us_status) first,
          total_kept (λ r. r.us_status) (λ r d. refl) rs,
        ))

  bytes-Printed : Printed (map (λ r. r.num_bytes) (sort_by_key (λ r. r.num_bytes) third))
  bytes-Printed =
      sorted-Printed (λ r. r.num_bytes) third
        (omega (
          arith,
          some,
          length_kept rs,
          length-sort_by_key (λ r. r.us_request) first,
          length-sort_by_key (λ r. r.us_status) second,
        ))
        (omega (
          arith,
          fits.sizes,
          total-sort_by_key (λ r. r.us_request) (λ r. r.num_bytes) first,
          total-sort_by_key (λ r. r.us_status) (λ r. r.num_bytes) second,
          total_kept (λ r. r.num_bytes) (λ r d. refl) rs,
        ))

length-divide :
    (rs : List Response) (results : List RequestResult) (errors : List (List ℕ))
    → length (divide rs (results, errors)).0 + length (divide rs (results, errors)).1
      ≡ length rs + length results + length errors
unfolding divide
length-divide [] results errors = omega arith
length-divide (received r ∷ rs) results errors =
    omega (arith, length-divide rs (results ++ r ∷ []) errors, length-append results (r ∷ []))
length-divide (failed e ∷ rs) results errors =
    omega (arith, length-divide rs results (errors ++ e ∷ []), length-append errors (e ∷ []))

-- In a release build, for a function with at least one result, whose results fit u128, the report is
-- made: its errors and its results are as many as the responses, and in each of its four parts the
-- numbers are in order, the average between the least and the largest.
pub function_report-IsOrdered :
    (responses : List Response)
    → 0 < length (divide responses ([], [])).0
    → Fits (divide responses ([], [])).0
    → (r : FunctionReport) × (function_report release responses ≡ ok r)
      × (r.errors + r.results ≡ length responses)
      × IsOrdered r.intervals
      × IsOrdered r.latency
      × IsOrdered r.status
      × IsOrdered r.bytes
unfolding function_report
function_report-IsOrdered responses some fits =
    let rs = (divide responses ([], [])).0 in
    let (i, ei, oi) = intervals-Printed rs some fits in
    let (l, el, ol) = latency-Printed rs some fits in
    let (s, es, os) = status-Printed rs some fits in
    let (b, eb, ob) = bytes-Printed rs some fits in
    (
      record {
        errors = length (divide responses ([], [])).1;
        results = length rs;
        intervals = i;
        latency = l;
        status = s;
        bytes = b;
      },
      rw (intervals_lem release rs) (rw ei (rw el (rw es (rw eb refl)))),
      omega (arith, length-divide responses [] []),
      oi,
      ol,
      os,
      ob,
    )
