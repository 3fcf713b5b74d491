-- ===== src/Faasmspeed/Schedule.antt =====
-- The loop of `run_function` of faasmspeed/src/main.rs that picks each request: which entry of the
-- pool, and whether the form that may be offloaded to near-data processing. Values are i32.
pub mod Cycle
pub mod Plain
pub mod Fraction
use ndp_auto_offload.Base.{
  ℕ, zero, suc, ◌+◌, ◌==◌, Bool, true, false, not, ◌||◌, Option, none, some, List, [], ◌∷◌, Outcome,
  ok, err, panic, out_of_bounds, ltb, if◌then◌else◌,
}
use ndp_auto_offload.Base
use ndp_auto_offload.Base.Int.{ℤ, pos, ◌+ℤ◌, ◌-ℤ◌, ltb_ℤ}
use ndp_auto_offload.Base.Words.{Profile, fit_i32}

-- How a piece of the loop ends on the given fuel; `none` is a `while` that is still running.
abbrev pub Looped : Type 0 → Type 0
Looped A = Option (Outcome A)

infixl 5 ◌>>=◌
abbrev pub ◌>>=◌ : {A B : Type 0} → Looped A → (A → Looped B) → Looped B
none >>= f = none
some (ok a) >>= f = f a
some (err e) >>= f = some (err e)
some (panic p) >>= f = some (panic p)

-- `while ndp_var > den { ndp_var -= den; }`
unfoldable pub reduce : ℕ → Profile → ℤ → ℤ → Looped ℤ
reduce zero p den ndp_var = none
reduce (suc fuel) p den ndp_var =
    let rest = some (fit_i32 p (ndp_var -ℤ den)) >>= reduce fuel p den in
    if ltb_ℤ den ndp_var then rest else some (ok ndp_var)

-- The variables of the loop, and the counter `ndp_requests` of the shared state.
pub record Generator : Type 0 where
  pub ndp_var : ℤ
  pub which_request : ℕ
  pub ndp_requests : ℕ

-- What does not change in the loop.
pub record Plan : Type 0 where
  pub offload_frac_num : ℤ
  pub offload_frac_den : ℤ
  pub pool_len : ℕ

-- `let force_ndp = offload_frac_num > opts.offload_frac_den`
unfoldable pub force_ndp : Plan → Bool
force_ndp plan = ltb_ℤ plan.offload_frac_den plan.offload_frac_num

-- `let mut ndp_var = opts.offload_frac_den - 1` and `let mut which_request = 0`
unfoldable pub first : Profile → Plan → Outcome Generator
first p plan =
    Base.map_ok (λ v. record { ndp_var = v; which_request = 0; ndp_requests = 0 })
      (fit_i32 p (plan.offload_frac_den -ℤ pos 1))

-- One request: its index in the pool, and whether it is the form that may be offloaded.
abbrev pub Choice : Type 0
Choice = ℕ × Bool

-- The choice at a reduced `ndp_var`, and the variables behind it.
unfoldable pub choose : Plan → Generator → ℤ → Choice × Generator
choose plan g ndp_var =
    let allow_ndp = not (ltb_ℤ plan.offload_frac_num ndp_var) || force_ndp plan in
    let which = g.which_request + 1 in
    (
      (g.which_request, allow_ndp),
      record {
        ndp_var = ndp_var;
        which_request = if which == plan.pool_len then 0 else which;
        ndp_requests = if allow_ndp then g.ndp_requests + 1 else g.ndp_requests;
      },
    )

-- `request_pool[which_request]` panics out of bounds.
unfoldable pub pick : Plan → Generator → ℤ → Outcome (Choice × Generator)
pick plan g ndp_var =
    if ltb g.which_request plan.pool_len then ok (choose plan g ndp_var) else panic out_of_bounds

-- The body of the `for` loop.
unfoldable pub next_request : ℕ → Profile → Plan → Generator → Looped (Choice × Generator)
next_request fuel p plan g = some (fit_i32 p (g.ndp_var +ℤ pos 1)) >>= λ v.
    reduce fuel p plan.offload_frac_den v >>= λ ndp_var. some (pick plan g ndp_var)

-- `for _request_id in 0..total_requests`
unfoldable pub requests : ℕ → Profile → Plan → ℕ → Generator → Looped (List Choice × Generator)
requests fuel p plan zero g = some (ok ([], g))
requests fuel p plan (suc n) g = next_request fuel p plan g >>= λ (c, g').
    requests fuel p plan n g' >>= λ (cs, last). some (ok (c ∷ cs, last))

-- The whole loop, from its first variables.
unfoldable pub generate : ℕ → Profile → Plan → ℕ → Looped (List Choice × Generator)
generate fuel p plan n = some (first p plan) >>= requests fuel p plan n
