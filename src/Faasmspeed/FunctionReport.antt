-- ===== src/Faasmspeed/FunctionReport.antt =====
-- The report of each function in `async_main` of faasmspeed/src/main.rs.
pub mod Sums
pub mod Ordered
use ndp_auto_offload.Base.{ℕ, List, [], ◌∷◌, map, length, Outcome, ok, err, panic, ◌>>=◌}
use ndp_auto_offload.Base.Words.{Profile}
use ndp_auto_offload.Faasmspeed.Report.{Summary, print_stats}
use ndp_auto_offload.Faasmspeed.Results.{RequestResult, Response, divide, intervals, sort_by_key}

pub record FunctionReport : Type 0 where
  pub errors : ℕ
  pub results : ℕ
  pub intervals : Summary
  pub latency : Summary
  pub status : Summary
  pub bytes : Summary

-- The body of the loop over the functions, on what its requests ended with. Each sort works on the
-- list that the one before it left.
unfoldable pub function_report : Profile → List Response → Outcome FunctionReport
function_report p responses = do
  let divided = divide responses ([], [])
  by_interval ← intervals p divided.0
  interval_stats ← print_stats p (map (λ r. r.start_time) by_interval)
  let by_request = sort_by_key (λ r. r.us_request) by_interval
  latency_stats ← print_stats p (map (λ r. r.us_request) by_request)
  let by_status = sort_by_key (λ r. r.us_status) by_request
  status_stats ← print_stats p (map (λ r. r.us_status) by_status)
  let by_bytes = sort_by_key (λ r. r.num_bytes) by_status
  bytes_stats ← print_stats p (map (λ r. r.num_bytes) by_bytes)
  ok (record {
    errors = length divided.1;
    results = length divided.0;
    intervals = interval_stats;
    latency = latency_stats;
    status = status_stats;
    bytes = bytes_stats;
  })

unfoldable pub function_reports : Profile → List (List Response) → Outcome (List FunctionReport)
function_reports p [] = ok []
function_reports p (rs ∷ rest) = do
  report ← function_report p rs
  reports ← function_reports p rest
  ok (report ∷ reports)
