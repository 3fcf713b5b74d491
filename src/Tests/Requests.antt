-- ===== src/Tests/Requests.antt =====
-- The requests and the reports of faasmspeed/src/main.rs at concrete options and responses.
use ndp_auto_offload.Base.{
  refl, ◌≡◌, arith, ℕ, ◌+◌, ◌<◌, ◌*◌, Bool, Option, not, true, false, none, some, List, [], ◌∷◌,
  map, length, get_elem?, ok,
}
use ndp_auto_offload.Base.Int.{pos, ltb_ℤ}
use ndp_auto_offload.Base.Words.{debug, release}
use ndp_auto_offload.Text.{Text, codes, starts_with, strip_prefix}
use ndp_auto_offload.Faasmspeed.Options.{Options, get_opts, or_default}
use ndp_auto_offload.Faasmspeed.Options.Complete.{IsComplete, get_opts-IsComplete}
use ndp_auto_offload.Faasmspeed.Json.Reader.{read_object}
use ndp_auto_offload.Faasmspeed.Json.Body.{call_fields}
use ndp_auto_offload.Faasmspeed.Requests.{
  World, Request, Prepared, first_is_file, prepare, test_request, answered,
}
use ndp_auto_offload.Faasmspeed.Requests.Chosen.{built, both_forms}
use ndp_auto_offload.Faasmspeed.Requests.Run.{RateFloats, plan_of, run_requests}
use ndp_auto_offload.Faasmspeed.Requests.Sent.{run_requests_at}
use ndp_auto_offload.Faasmspeed.Schedule.{Choice, Generator, generate}
use ndp_auto_offload.Faasmspeed.Requests.First.{prepare_first}
use ndp_auto_offload.Faasmspeed.Report.Quantiles.{IsOrdered, total}
use ndp_auto_offload.Faasmspeed.Results.{Response, received, failed, divide}
use ndp_auto_offload.Faasmspeed.FunctionReport.{FunctionReport, function_report}
use ndp_auto_offload.Faasmspeed.FunctionReport.Ordered.{Fits, function_report-IsOrdered}

abbrev world : World
world = record { read_to_string = λ p. none; is_url = λ u. true; answers = λ r. true }

abbrev pub given : Options ℕ
given = record {
  url = codes "http://localhost:8080";
  timeout = 10000;
  requests_per_second = 10 ∷ [];
  time = 10;
  parallelism = 4;
  user = codes "demo";
  functions = codes "hello" ∷ [];
  oneshot = false;
  csv = true;
  dry_run = false;
  offload_frac_num = pos 1 ∷ [];
  offload_frac_den = pos 1;
  monitoring_hosts = [];
  input_data = codes "a" ∷ codes "b" ∷ [];
}

completed : get_opts 10 given ≡ given
unfolding get_opts or_default starts_with strip_prefix
completed = refl

given-IsComplete : IsComplete given
given-IsComplete = rw completed at (get_opts-IsComplete 10 given).0

inline : first_is_file given.input_data ≡ ok false
unfolding first_is_file starts_with strip_prefix
inline = refl

prepare_first_example :
    (s : Prepared ℕ) × (input : Text) × (prepare world given 0 ≡ ok s)
    × (s.pool ≡ map (both_forms s.target) (codes "a" ∷ codes "b" ∷ []))
    × (get_elem? (codes "a" ∷ codes "b" ∷ []) 0 ≡ some input)
    × (test_request given s
        ≡ ok (some (built s.target (not (ltb_ℤ (pos 0) s.offload_frac_num)) input)))
prepare_first_example = prepare_first world given given-IsComplete refl inline

abbrev rates : RateFloats ℕ
rates = record { mul = λ a b. a * b; ceil_i64 = pos; has_period = λ r. true }

answered-world : (t : Option Request) → answered world t ≡ ok tt
unfolding answered
answered-world none = refl
answered-world (some r) = refl

run_requests_at_example :
    (s : Prepared ℕ) × (cs : List Choice) × (g : Generator) × (rs : List Request) × (ndp : Bool)
    × (r : Request) × (input : Text) × (prepare world given 0 ≡ ok s)
    × (generate 2 debug (plan_of given s) 100 ≡ some (ok (cs, g)))
    × (run_requests 2 debug rates world given 0 ≡ some (ok rs))
    × (length rs ≡ 100)
    × (get_elem? cs 7 ≡ some (1, ndp))
    × (get_elem? (codes "a" ∷ codes "b" ∷ []) 1 ≡ some input)
    × (get_elem? rs 7 ≡ some r)
    × (r.url ≡ codes "http://localhost:8080")
    × (read_object 5 r.body
        ≡ some (call_fields (codes "demo") (codes "hello") input (not ndp) (ltb_ℤ (pos 1) (pos 1))))
run_requests_at_example =
    run_requests_at 0 debug rates world given (codes "hello") 10 (pos 1) 1 100 7 refl refl
      (λ s t e k. answered-world t) refl inline refl refl refl refl (omega arith) (omega arith)
      (omega arith) refl refl (omega arith) (ground arith) (ground arith)
      (ground arith, (ground arith, tt))

abbrev pub responses : List Response
responses =
    received (record { us_request = 30; us_status = 20; num_bytes = 5; start_time = 9 })
    ∷ failed (codes "timeout")
    ∷ received (record { us_request = 10; us_status = 8; num_bytes = 7; start_time = 2 })
    ∷ []

pub responses-Fits : Fits (divide responses ([], [])).0
unfolding divide total
responses-Fits = record {
  starts = (omega arith, (omega arith, tt));
  requests = omega arith;
  statuses = omega arith;
  sizes = omega arith;
}

pub some_received : 0 < length (divide responses ([], [])).0
unfolding divide
some_received = omega arith

function_report-IsOrdered_example :
    (r : FunctionReport) × (function_report release responses ≡ ok r)
    × (r.errors + r.results ≡ 3)
    × IsOrdered r.intervals
    × IsOrdered r.latency
    × IsOrdered r.status
    × IsOrdered r.bytes
function_report-IsOrdered_example = function_report-IsOrdered responses some_received responses-Fits
