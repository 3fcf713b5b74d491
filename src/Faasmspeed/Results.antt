-- ===== src/Faasmspeed/Results.antt =====
-- The results of the requests in `async_main` of faasmspeed/src/main.rs: they are divided from the
-- errors, sorted, and their start times become the intervals between them.
pub mod Sorting
pub mod Intervals
pub mod Division
use ndp_auto_offload.Base.{
  ℕ, zero, suc, ◌-◌, Bool, true, false, List, [], ◌∷◌, ◌++◌, map, length, get_elem?, set, Option,
  none, some, Outcome, ok, err, panic, ◌>>=◌, or_panic, out_of_bounds, leb, ltb, if◌then◌else◌,
}
use ndp_auto_offload.Base.Words.{Profile, sub_uint, u128_mod}
use ndp_auto_offload.Text.{Text}

pub record RequestResult : Type 0 where
  pub us_request : ℕ
  pub us_status : ℕ
  pub num_bytes : ℕ
  pub start_time : ℕ

-- What a spawned request ends with: a result, or an error with its text.
pub data Response : Type 0 where
  received : RequestResult → Response
  failed : Text → Response

-- `for result in r { match result { .. } }`
unfoldable pub divide :
    List Response → List RequestResult × List Text → List RequestResult × List Text
divide [] acc = acc
divide (received rr ∷ rs) (results, errors) = divide rs (results ++ rr ∷ [], errors)
divide (failed e ∷ rs) (results, errors) = divide rs (results, errors ++ e ∷ [])

-- `sort_unstable_by_key`: results with equal keys may stand in any order; here the later comes last.
unfoldable pub insert_by :
    (RequestResult → ℕ) → RequestResult → List RequestResult → List RequestResult
insert_by key r [] = r ∷ []
insert_by key r (s ∷ rs) = if ltb (key s) (key r) then s ∷ insert_by key r rs else r ∷ s ∷ rs

unfoldable pub sort_by_key : (RequestResult → ℕ) → List RequestResult → List RequestResult
sort_by_key key [] = []
sort_by_key key (r ∷ rs) = insert_by key r (sort_by_key key rs)

-- `results[i].start_time -= results[i - 1].start_time`
unfoldable pub subtract_previous : Profile → ℕ → List RequestResult → Outcome (List RequestResult)
subtract_previous p i rs = do
  prev ← or_panic out_of_bounds (get_elem? rs i)
  this ← or_panic out_of_bounds (get_elem? rs (suc i))
  d ← sub_uint u128_mod p this.start_time prev.start_time
  ok (set rs (suc i) (record this { start_time = d }))

-- `for i in (1..results.len()).rev()`, with the indices below `suc i` left to do
unfoldable pub intervals_from : Profile → ℕ → List RequestResult → Outcome (List RequestResult)
intervals_from p zero rs = ok rs
intervals_from p (suc i) rs = do rs' ← subtract_previous p i rs; intervals_from p i rs'

-- `if results.len() > 2 { results[0].start_time = results[1].start_time; }`
unfoldable pub fill_first : List RequestResult → List RequestResult
fill_first (r ∷ s ∷ t ∷ rs) = record r { start_time = s.start_time } ∷ s ∷ t ∷ rs
fill_first rs = rs

-- The block before the first report: sorted by start time, made intervals, and sorted again.
unfoldable pub intervals : Profile → List RequestResult → Outcome (List RequestResult)
intervals p results = do
  let sorted = sort_by_key (λ r. r.start_time) results
  spaced ← intervals_from p (length sorted - 1) sorted
  ok (sort_by_key (λ r. r.start_time) (fill_first spaced))
