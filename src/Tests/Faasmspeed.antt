-- ===== src/Tests/Faasmspeed.antt =====
-- The theorems on faasmspeed/src/main.rs at concrete options and results.
use mathlib.Core.Option
use ndp_auto_offload.Base.{
  ℕ, ◌/◌, ◌≡◌, refl, List, [], ◌∷◌, length, get_elem?, some, none, ok, panic, overflow, arith, true,
  false,
}
use ndp_auto_offload.Base.Int.{pos}
use ndp_auto_offload.Base.Words.{debug, release}
use ndp_auto_offload.Faasmspeed.Schedule.{Plan, Generator, Choice, generate}
use ndp_auto_offload.Faasmspeed.Schedule.Plain.{offered}
use ndp_auto_offload.Faasmspeed.Schedule.Fraction.{
  IsUsable, generate_total, generate_fraction, zero_denominator,
}
use ndp_auto_offload.Faasmspeed.Report.{Summary, print_stats, to_usize}
use ndp_auto_offload.Faasmspeed.Report.Quantiles.{IsOrdered, total, print_stats-IsOrdered}
use ndp_auto_offload.Faasmspeed.Report.Variance.{
  squared_distances, print_stats_variance, print_stats_debug,
}
use ndp_auto_offload.Faasmspeed.Results.{RequestResult, Response, received, failed}
use ndp_auto_offload.Text.{codes}
use ndp_auto_offload.Faasmspeed.Options.{Options, get_opts}
use ndp_auto_offload.Faasmspeed.Options.Complete.{IsComplete, get_opts-IsComplete}

-- Two of five requests, from a pool of three.
abbrev two_of_five : Plan
two_of_five = record { offload_frac_num = pos 2; offload_frac_den = pos 5; pool_len = 3 }

two_of_five-IsUsable : IsUsable two_of_five 5
two_of_five-IsUsable = record {
  den = refl;
  positive = omega arith;
  small = omega arith;
  pool = omega arith;
}

generate_total_example :
    (cs : List Choice) × (g : Generator) × (generate 2 debug two_of_five 7 ≡ some (ok (cs, g)))
    × (length cs ≡ 7)
    × (Option.map (λ c. c.0) (get_elem? cs 5) ≡ some 2)
generate_total_example = generate_total 0 debug two_of_five 5 7 5 two_of_five-IsUsable (omega arith)

generate_fraction_example :
    (cs : List Choice) × (g : Generator) × (generate 2 release two_of_five 15 ≡ some (ok (cs, g)))
    × (offered cs ≡ 6)
    × (g.ndp_requests ≡ offered cs)
generate_fraction_example = generate_fraction 0 release two_of_five 5 3 two_of_five-IsUsable

zero_denominator_example :
    generate 9 debug (record { offload_frac_num = pos 1; offload_frac_den = pos 0; pool_len = 1 }) 2
    ≡ none
zero_denominator_example =
    zero_denominator 9 debug
      (record { offload_frac_num = pos 1; offload_frac_den = pos 0; pool_len = 1 }) 0 refl
      (omega arith)

print_stats-IsOrdered_example :
    (s : Summary) × (print_stats release (1 ∷ 2 ∷ 6 ∷ []) ≡ ok s) × IsOrdered s
print_stats-IsOrdered_example =
    print_stats-IsOrdered 1 (2 ∷ 6 ∷ []) (omega arith, (omega arith, tt))
      (unfold total in omega arith)

print_stats_variance_example :
    (s : Summary) × (print_stats release (1 ∷ 2 ∷ 6 ∷ []) ≡ ok s)
    × (s.avg ≡ total (1 ∷ 2 ∷ 6 ∷ []) / 3)
    × (s.variance ≡ to_usize (total (squared_distances s.avg (1 ∷ 2 ∷ 6 ∷ [])) / 3))
print_stats_variance_example =
    print_stats_variance 1 (2 ∷ 6 ∷ []) (omega arith, (omega arith, (omega arith, tt)))
      (unfold total in omega arith) (unfold total squared_distances in omega arith)

print_stats_debug_example : print_stats debug (1 ∷ 2 ∷ 6 ∷ []) ≡ panic overflow
print_stats_debug_example =
    print_stats_debug 1 (2 ∷ 6 ∷ []) (unfold total in omega arith) (unfold total in omega arith)

abbrev at_time : ℕ → RequestResult
at_time t = record { us_request = 10; us_status = 20; num_bytes = 30; start_time = t }

abbrev three_results : List RequestResult
three_results = at_time 9 ∷ at_time 2 ∷ at_time 5 ∷ []

abbrev two_responses : List Response
two_responses = failed (codes "timeout") ∷ received (at_time 4) ∷ []

abbrev bare_options : Options ℕ
bare_options = record {
  url = codes "localhost:8080";
  timeout = 10000;
  requests_per_second = [];
  time = 10;
  parallelism = 4;
  user = codes "demo";
  functions = [];
  oneshot = false;
  csv = true;
  dry_run = false;
  offload_frac_num = [];
  offload_frac_den = pos 1;
  monitoring_hosts = [];
  input_data = [];
}

get_opts-IsComplete_example :
    IsComplete (get_opts 10 bare_options)
    × (get_opts 10 (get_opts 10 bare_options) ≡ get_opts 10 bare_options)
get_opts-IsComplete_example = get_opts-IsComplete 10 bare_options
