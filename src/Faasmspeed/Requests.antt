-- ===== src/Faasmspeed/Requests.antt =====
-- The requests of one function in `run_function` of faasmspeed/src/main.rs: what is read from the
-- options and the file of inputs, the pool of both forms of each request, and the test request.
pub mod Chosen
pub mod First
pub mod Run
pub mod Sent
use ndp_auto_offload.Base.{
  ⊤, ℕ, ◌==◌, ◌&&◌, not, Bool, true, false, Option, none, some, List, [], ◌∷◌, map, keep, get_elem?,
  if◌then◌else◌, Outcome, ok, err, panic, ◌>>=◌, or_panic, map_ok, Error, open_failed,
  unwrap_failed, out_of_bounds, parse_failed,
}
use ndp_auto_offload.Base.Int.{ℤ, pos, ltb_ℤ}
use ndp_auto_offload.Text.{
  Text, starts_with, strip_prefix, trim, trimmed_lines, split_when, is_empty,
}
use ndp_auto_offload.Faasmspeed.Options.{Options}
use ndp_auto_offload.Faasmspeed.Json.{make_json_call}
use ndp_auto_offload.Faasmspeed.Schedule.{Choice}

pub record Request : Type 0 where
  pub url : Text
  pub body : Text
  pub timeout : ℕ

-- What the file system and the crate reqwest answer.
pub record World : Type 0 where
  -- the contents of a file that can be read
  pub read_to_string : Text → Option Text
  -- whether a request to an address can be built
  pub is_url : Text → Bool
  -- whether the client gets an answer with a status of success, and all its bytes
  pub answers : Request → Bool

unfoldable pub make_request : World → Text → Text → ℕ → Outcome Request
make_request w url input timeout_ms =
    if w.is_url url
    then ok (record { url = url; body = input; timeout = timeout_ms })
    else err parse_failed

-- `.expect(..)` on a result
unfoldable pub expect : {A : Type 0} → Outcome A → Outcome A
expect (ok a) = ok a
expect (err e) = panic unwrap_failed
expect (panic p) = panic p

-- `input_data[0].starts_with('@')`
unfoldable pub first_is_file : List Text → Outcome Bool
first_is_file inputs =
    map_ok (starts_with (b'@' ∷ [])) (or_panic out_of_bounds (get_elem? inputs 0))

unfoldable pub read_inputs : World → List Text → ℕ → Outcome (List Text)
read_inputs w inputs idx = do
  input ← or_panic unwrap_failed (get_elem? inputs idx)
  path ← or_panic unwrap_failed (strip_prefix (b'@' ∷ []) input)
  contents ← or_panic unwrap_failed (w.read_to_string (trim path))
  ok (trimmed_lines contents)

-- The condition of the first `if` is read only at the first function.
unfoldable pub input_data : World → List Text → ℕ → Outcome (List Text)
input_data w inputs idx = do
  from_file ← if idx == 0 then first_is_file inputs else ok true
  if from_file then read_inputs w inputs idx else ok inputs

-- What does not change between the requests of a function.
pub record Target : Type 0 where
  pub url : Text
  pub timeout : ℕ
  pub user : Text
  pub function : Text
  pub force_ndp : Bool

unfoldable pub make_form : World → Target → Bool → Text → Outcome Request
make_form w t forbid_ndp input =
    make_request w t.url (make_json_call t.user t.function input forbid_ndp t.force_ndp) t.timeout

-- (no ndp, ndp)
unfoldable pub request_pool : World → Target → List Text → Outcome (List (Request × Request))
request_pool w t [] = ok []
request_pool w t (input ∷ rest) = do
  plain ← make_form w t true input
  ndp ← make_form w t false input
  pool ← request_pool w t rest
  ok ((plain, ndp) ∷ pool)

pub record Prepared (F : Type 0) : Type 0 where
  pub requests_per_second : F
  pub offload_frac_num : ℤ
  pub target : Target
  pub pool : List (Request × Request)

-- `run_function` up to the pool of requests.
unfoldable pub prepare : {F : Type 0} → World → Options F → ℕ → Outcome (Prepared F)
prepare w opts idx = do
  function ← or_panic unwrap_failed (get_elem? opts.functions idx)
  rps ← or_panic unwrap_failed (get_elem? opts.requests_per_second idx)
  num ← or_panic unwrap_failed (get_elem? opts.offload_frac_num idx)
  inputs ← input_data w opts.input_data idx
  let target : Target = record {
    url = opts.url;
    timeout = opts.timeout;
    user = opts.user;
    function = function;
    force_ndp = ltb_ℤ opts.offload_frac_den num;
  }
  pool ← expect (request_pool w target inputs)
  ok (record { requests_per_second = rps; offload_frac_num = num; target = target; pool = pool })

abbrev pub form : Bool → Request × Request → Request
form ndp (plain, offloadable) = if ndp then offloadable else plain

-- `if offload_frac_num > 0 { &request_pool[0].1 } else { &request_pool[0].0 }`, unless it is a dry
-- run, which makes no test request.
unfoldable pub test_request : {F : Type 0} → Options F → Prepared F → Outcome (Option Request)
test_request opts s =
    if opts.dry_run
    then ok none
    else map_ok (λ forms. some (form (ltb_ℤ (pos 0) s.offload_frac_num) forms))
        (or_panic out_of_bounds (get_elem? s.pool 0))

-- The three calls of `expect` on the answer to the test request.
unfoldable pub answered : World → Option Request → Outcome ⊤
answered w none = ok tt
answered w (some r) = if w.answers r then ok tt else panic unwrap_failed

-- The request of a choice of the loop.
unfoldable pub chosen_request : List (Request × Request) → Choice → Outcome Request
chosen_request pool (which, ndp) = map_ok (form ndp) (or_panic out_of_bounds (get_elem? pool which))

-- `opts.monitoring_hosts.split(';').map(str::trim).filter(|h| !h.is_empty())`
unfoldable pub monitoring_hosts : Text → List Text
monitoring_hosts s = keep (λ h. not (is_empty h)) (map trim (split_when (λ c. c == b';') s))
