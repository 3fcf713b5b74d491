-- ===== src/Faasmspeed/Requests/Run.antt =====
-- The requests that a task of `run_function` in faasmspeed/src/main.rs makes, from its options on.
use ndp_auto_offload.Base
use ndp_auto_offload.Base.{
  ⊤, Bool, error_raised, if◌then◌else◌, ℕ, suc, ◌*◌, ◌%◌, ◌<◌, ◌^◌, ◌≡◌, refl, ap, ◌∙◌, arith, not,
  false, Bool, Option, some, none, List, [], ◌∷◌, map, length, length-map, All, get_elem?, Outcome,
  ok, err, panic, assertion_failed, >>=-eq-ok, ok-injective, some-eq,
}
use ndp_auto_offload.Base.Int.{ℤ, pos, negsuc}
use ndp_auto_offload.Base.Words.{Profile}
use ndp_auto_offload.Faasmspeed.Options.{Options}
use ndp_auto_offload.Faasmspeed.Schedule.{Looped, ◌>>=◌, Plan, Choice, generate}
use ndp_auto_offload.Faasmspeed.Requests.{
  World, Request, Prepared, prepare, chosen_request, test_request, answered,
}

-- The operations of f64 that give the number of requests.
pub record RateFloats (F : Type 0) : Type 0 where
  pub mul : F → F → F
  -- `.ceil() as i64`
  pub ceil_i64 : F → ℤ
  -- whether `Duration::from_secs_f64` of the inverse and the interval of tokio take it
  pub has_period : F → Bool

-- `assert!(total_requests >= 0)`
unfoldable pub at_least_zero : ℤ → Outcome ℕ
at_least_zero (pos n) = ok n
at_least_zero (negsuc n) = panic assertion_failed

-- `(requests_per_second * opts.time).ceil() as i64`
unfoldable pub total_requests : {F : Type 0} → RateFloats F → F → F → Outcome ℕ
total_requests fl requests_per_second time =
    at_least_zero (fl.ceil_i64 (fl.mul requests_per_second time))

-- `tokio::time::interval(Duration::from_secs_f64(1.0 / requests_per_second))`
unfoldable pub interval : {F : Type 0} → RateFloats F → F → Outcome ⊤
interval fl requests_per_second =
    if fl.has_period requests_per_second then ok tt else panic error_raised

-- What the loop over the requests takes of the options.
unfoldable pub plan_of : {F : Type 0} → Options F → Prepared F → Plan
plan_of opts s = record {
  offload_frac_num = s.offload_frac_num;
  offload_frac_den = opts.offload_frac_den;
  pool_len = length s.pool;
}

unfoldable pub chosen_requests : List (Request × Request) → List Choice → Outcome (List Request)
chosen_requests pool [] = ok []
chosen_requests pool (c ∷ cs) =
    Base.◌>>=◌ (chosen_request pool c) λ r. Base.◌>>=◌ (chosen_requests pool cs) λ rs. ok (r ∷ rs)

-- `if !opts.dry_run { client_ref.execute(request) .. }` of the spawned tasks.
unfoldable pub executed : Bool → List Request → List Request
executed dry_run rs = if dry_run then [] else rs

-- From the options of a function to the requests that its task sends behind the test request, in the
-- order in which their tasks are spawned.
unfoldable pub run_requests :
    {F : Type 0} → ℕ → Profile → RateFloats F → World → Options F → ℕ → Looped (List Request)
run_requests fuel p fl w opts idx = some (prepare w opts idx) >>= λ s.
    some (test_request opts s) >>= λ t. some (answered w t) >>= λ _.
    (let sent = some (total_requests fl s.requests_per_second opts.time) >>= λ n.
    some (interval fl s.requests_per_second) >>= λ _.
    generate fuel p (plan_of opts s) n >>= λ (cs, g).
    some (chosen_requests s.pool cs) >>= λ rs. some (ok (executed opts.dry_run rs)) in
      if opts.oneshot then some (ok []) else sent)
