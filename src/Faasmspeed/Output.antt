-- ===== src/Faasmspeed/Output.antt =====
-- What `print_stats` and `async_main` of faasmspeed/src/main.rs print on the standard output, line by
-- line. A panic ends the run; what it had printed before is not kept here.
pub mod Columns
pub mod Complete
use ndp_auto_offload.Base.{
  ℕ, suc, Bool, true, false, List, [], ◌∷◌, ◌++◌, map, get_elem?, length, Outcome, ok, err, panic,
  ◌>>=◌, or_panic, out_of_bounds, if◌then◌else◌,
}
use ndp_auto_offload.Base.Int.{ℤ}
use ndp_auto_offload.Base.Words.{Profile}
use ndp_auto_offload.Text.{Text, codes, trim}
use ndp_auto_offload.Text.Print.{show_ℕ}
use ndp_auto_offload.Faasmspeed.Options.{Options}
use ndp_auto_offload.Faasmspeed.Report.{Summary}
use ndp_auto_offload.Faasmspeed.Results.{Response, divide}
use ndp_auto_offload.Faasmspeed.Errors.Grouping.{GroupBy}
use ndp_auto_offload.Faasmspeed.Errors.{error_lines}
use ndp_auto_offload.Faasmspeed.FunctionReport.{function_report}

-- The operations of f64 that the report takes, and `{:.n}` of `Display`.
pub record ReportFloats (F : Type 0) : Type 0 where
  pub of_nat : ℕ → F
  pub of_int : ℤ → F
  pub sqrt : F → F
  pub div : F → F → F
  pub million : F
  pub show_fixed : ℕ → F → Text

unfoldable pub csv_line : Text → Text × Text → Text
csv_line short (field, value) = short ++ b',' ∷ (field ++ b',' ∷ value)

module _ {F : Type 0} (fl : ReportFloats F) where
  -- The fields of the table; `Display` of an integer takes no notice of a precision.
  unfoldable pub stats_fields : Summary → List (Text × Text)
  stats_fields s =
      (codes "min", show_ℕ s.min)
      ∷ (codes "q1pct", show_ℕ s.q01)
      ∷ (codes "q1", show_ℕ s.q1)
      ∷ (codes "med", show_ℕ s.med)
      ∷ (codes "q3", show_ℕ s.q3)
      ∷ (codes "q99pct", show_ℕ s.q99)
      ∷ (codes "max", show_ℕ s.max)
      ∷ (codes "avg", show_ℕ s.avg)
      ∷ (codes "stddev", fl.show_fixed 1 (fl.sqrt (fl.of_nat s.variance)))
      ∷ []

  unfoldable pub stats_text : Text → Summary → List Text
  stats_text variable_name s =
      (variable_name
        ++ codes " min = "
        ++ show_ℕ s.min
        ++ codes "  q1% = "
        ++ show_ℕ s.q01
        ++ codes "  q1 = "
        ++ show_ℕ s.q1
        ++ codes "  med = "
        ++ show_ℕ s.med
        ++ codes "  q3 = "
        ++ show_ℕ s.q3
        ++ codes "  q99% = "
        ++ show_ℕ s.q99
        ++ codes "  max = "
        ++ show_ℕ s.max)
      ∷ (codes " avg = "
          ++ show_ℕ s.avg
          ++ codes "  stddev = "
          ++ fl.show_fixed 1 (fl.sqrt (fl.of_nat s.variance)))
      ∷ []

  -- What `print_stats` prints of its numbers.
  unfoldable pub stats_lines : Bool → Text → Text → Summary → List Text
  stats_lines csv variable_name short_name s =
      if csv then map (csv_line short_name) (stats_fields s) else stats_text variable_name s

  -- The line of the options.
  unfoldable pub options_line : Options F → ℕ → Text → ℕ → ℕ → Outcome Text
  options_line opts fidx function ndp_requests total_requests = do
    num ← or_panic out_of_bounds (get_elem? opts.offload_frac_num fidx)
    first_num ← or_panic out_of_bounds (get_elem? opts.offload_frac_num 0)
    rps ← or_panic out_of_bounds (get_elem? opts.requests_per_second fidx)
    first_rps ← or_panic out_of_bounds (get_elem? opts.requests_per_second 0)
    input ← or_panic out_of_bounds (get_elem? opts.input_data 0)
    let den = fl.of_int opts.offload_frac_den
    ok (
        codes "opts,host,"
        ++ opts.url
        ++ codes ",user,"
        ++ opts.user
        ++ codes ",function,"
        ++ function
        ++ codes ",ndp,"
        ++ fl.show_fixed 2 (fl.div (fl.of_int num) den)
        ++ codes ",first-ndp,"
        ++ fl.show_fixed 2 (fl.div (fl.of_int first_num) den)
        ++ codes ",actual-ndp,"
        ++ fl.show_fixed 6 (fl.div (fl.of_nat ndp_requests) (fl.of_nat total_requests))
        ++ codes ",req-rps,"
        ++ fl.show_fixed 1 rps
        ++ codes ",first-rps,"
        ++ fl.show_fixed 1 first_rps
        ++ codes ",req-time,"
        ++ fl.show_fixed 1 opts.time
        ++ codes ",input-data-0,"
        ++ input)

  unfoldable pub heading : Options F → ℕ → Text → ℕ → ℕ → List Text → ℕ → ℕ → Outcome (List Text)
  heading opts fidx function ndp_requests total_requests monitoring errors results =
      if opts.csv
      then (options_line opts fidx function ndp_requests total_requests >>= λ line. ok (
          line
          ∷ (codes "errors,count," ++ show_ℕ errors)
          ∷ (codes "results,count," ++ show_ℕ results)
          ∷ map (λ m. codes "monitor," ++ trim m) monitoring))
      else ok (
          (codes "For function " ++ function ++ codes ":")
          ∷ (show_ℕ errors
              ++ codes " errors encountered, statistics from "
              ++ show_ℕ results
              ++ codes " results")
          ∷ map (λ m. codes "Monitoring result: " ++ trim m) monitoring)

  -- The lines of one function.
  unfoldable pub function_lines :
      Profile → Options F → ℕ → ℕ → List Text → ℕ → List Response → Outcome (List Text)
  function_lines p opts ndp_requests total_requests monitoring fidx responses = do
    function ← or_panic out_of_bounds (get_elem? opts.functions fidx)
    let divided = divide responses ([], [])
    head ←
        heading opts fidx function ndp_requests total_requests monitoring (length divided.1)
          (length divided.0)
    r ← function_report p responses
    ok (
        head
        ++ stats_lines opts.csv (codes "Inter-request interval [µs]") (codes "inter-request-us")
            r.intervals
        ++ (codes "avg-rps,avg-rps,"
            ++ fl.show_fixed 4 (fl.div fl.million (fl.of_nat r.intervals.avg)))
          ∷ (stats_lines opts.csv (codes "Request latency [µs]") (codes "latency-us") r.latency
              ++ stats_lines opts.csv (codes "Status latency [µs]") (codes "status-us") r.status
              ++ stats_lines opts.csv (codes "Bytes sent [b]") (codes "bytes-sent") r.bytes))

  unfoldable pub all_lines :
      Profile → Options F → ℕ → ℕ → List Text → ℕ → List (List Response) → Outcome (List Text)
  all_lines p opts ndp_requests total_requests monitoring fidx [] = ok []
  all_lines p opts ndp_requests total_requests monitoring fidx (rs ∷ rest) = do
    here ← function_lines p opts ndp_requests total_requests monitoring fidx rs
    later ← all_lines p opts ndp_requests total_requests monitoring (suc fidx) rest
    ok (here ++ later)

-- What the responses of all functions end in: the lines on the standard error, and those on the
-- standard output.
unfoldable pub finish :
    {F : Type 0} (fl : ReportFloats F) ⦃itertools : GroupBy⦄
    → Profile
    → Options F
    → ℕ
    → ℕ
    → List Text
    → List (List Response)
    → List Text × Outcome (List Text)
finish fl p opts ndp_requests total_requests monitoring functions =
    let errors = map (λ (rs : List Response). (divide rs ([], [])).1) functions in
    (error_lines errors, all_lines fl p opts ndp_requests total_requests monitoring 0 functions)
