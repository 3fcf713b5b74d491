-- ===== src/Faasmspeed/Schedule/Fraction.antt =====
-- Which forms and which entries of the pool the generator of faasmspeed/src/main.rs takes.
use Prim.Native.Nat.{min}
use mathlib.Core.Option
use ndp_auto_offload.Base.{
  ℕ, zero, suc, ◌-◌, ◌*◌, ◌%◌, ◌^◌, ◌<◌, ◌≡◌, refl, ◌∙◌, ap, arith, some, none, ok, List, length,
  get_elem?,
}
use ndp_auto_offload.Base.Int.{pos, negsuc, ◌+ℤ◌, pos_part, ◌-ℤ◌}
use ndp_auto_offload.Base.Words.{Profile, fit_i32}
use ndp_auto_offload.Faasmspeed.Schedule.Cycle.{wrap, hits_rounds}
use ndp_auto_offload.Faasmspeed.Schedule.{
  reduce, next_request, pick, choose, Generator, Plan, Choice, first, requests, generate,
}
use ndp_auto_offload.Faasmspeed.Schedule.Plain.{
  offered, plain_run, requests_lem, plain_run-ndp, plain_run-offered, plain_run-length,
  plain_run-which,
}

-- The options that the experiments use: a positive denominator below the largest i32.
pub record IsUsable (plan : Plan) (d : ℕ) : Type 0 where
  pub den : plan.offload_frac_den ≡ pos d
  pub positive : 0 < d
  pub small : d < 2 ^ 31 - 1
  pub pool : 0 < plan.pool_len

start : ℕ → Generator
start d = record { ndp_var = pos (d - 1); which_request = 0; ndp_requests = 0 }

minus_one :
    (p : Profile) (d : ℕ) → 0 < d → d < 2 ^ 31 - 1 → fit_i32 p (pos d -ℤ pos 1) ≡ ok (pos (d - 1))
unfolding fit_i32 ◌-ℤ◌
minus_one p d h k = ground arith

generate_lem :
    (f : ℕ) (p : Profile) (plan : Plan) (d n : ℕ) (u : IsUsable plan d)
    → generate (suc (suc f)) p plan n
      ≡ some (ok (plain_run f p plan d u.den u.positive u.small n (d - 1) (start d)))
unfolding generate first start
generate_lem f p plan d n u = ground (
  arith,
  minus_one p d u.positive u.small,
  requests_lem f p plan d u.den u.positive u.small n (d - 1) (start d) refl (omega arith) u.pool,
)

-- In every build, with a pool that is not empty and a positive denominator below the largest i32,
-- the loop ends on two turns of fuel or more, and it makes one choice for each request; the
-- request number `i` uses the entry `i` of the pool, counted round and round.
pub generate_total :
    (f : ℕ) (p : Profile) (plan : Plan) (d n i : ℕ)
    → IsUsable plan d
    → i < n
    → (cs : List Choice) × (g : Generator) × (generate (suc (suc f)) p plan n ≡ some (ok (cs, g)))
      × (length cs ≡ n)
      × (Option.map (λ c. c.0) (get_elem? cs i) ≡ some (i % plan.pool_len))
unfolding start
generate_total f p plan d n i u h =
    let run = plain_run f p plan d u.den u.positive u.small n (d - 1) (start d) in
    (
      run.0,
      run.1,
      generate_lem f p plan d n u,
      plain_run-length f p plan d u.den u.positive u.small n (d - 1) (start d),
      plain_run-which f p plan d u.den u.positive u.small n (d - 1) i (start d) u.pool h
          ∙ ap (λ r. some (r % plan.pool_len)) (omega arith),
    )

-- In every build, with a pool that is not empty and a positive denominator `d` below the largest
-- i32: of any whole number `m` of rounds of `d` requests, exactly `m` times the numerator may be
-- offloaded, or all of them where the numerator is larger, or none where it is negative; and the
-- shared counter `ndp_requests` is their number. The loop ends on two turns of fuel.
pub generate_fraction :
    (f : ℕ) (p : Profile) (plan : Plan) (d m : ℕ)
    → IsUsable plan d
    → (cs : List Choice) × (g : Generator) × (generate (suc (suc f)) p plan (m * d)
        ≡ some (ok (cs, g)))
      × (offered cs ≡ m * min (pos_part plan.offload_frac_num) d)
      × (g.ndp_requests ≡ offered cs)
unfolding start
generate_fraction f p plan d m u =
    let run = plain_run f p plan d u.den u.positive u.small (m * d) (d - 1) (start d) in
    let k = pos_part plan.offload_frac_num in
    let place : wrap d (d - 1) < d = ground arith in
    let rounds = hits_rounds d k m (wrap d (d - 1)) place in
    let count =
      plain_run-offered f p plan d u.den u.positive u.small (m * d) (d - 1) (start d)
        (omega arith) in
    let shared =
      plain_run-ndp f p plan d u.den u.positive u.small (m * d) (d - 1) (start d) (omega arith) in
    (run.0, run.1, generate_lem f p plan d (m * d) u, count ∙ rounds, omega (arith, count, shared))

stuck : (fuel : ℕ) (p : Profile) → reduce fuel p (pos 0) (pos 1) ≡ none
unfolding reduce fit_i32 ◌-ℤ◌
stuck zero p = refl
stuck (suc fuel) p = ground (arith, stuck fuel p)

first_step :
    (fuel : ℕ) (p : Profile) (plan : Plan) (g : Generator)
    → plan.offload_frac_den ≡ pos 0
    → g.ndp_var ≡ negsuc 0
    → g.which_request < plan.pool_len
    → next_request (suc fuel) p plan g ≡ some (ok (choose plan g (pos 0)))
unfolding next_request reduce pick fit_i32 ◌+ℤ◌
first_step fuel p plan g e v w = ground arith

second_step :
    (fuel : ℕ) (p : Profile) (plan : Plan) (g : Generator)
    → plan.offload_frac_den ≡ pos 0
    → g.ndp_var ≡ pos 0
    → next_request fuel p plan g ≡ none
unfolding next_request fit_i32 ◌+ℤ◌
second_step fuel p plan g e v = ground (arith, stuck fuel p)

no_fuel :
    (p : Profile) (plan : Plan) (g : Generator)
    → g.ndp_var ≡ negsuc 0
    → next_request zero p plan g ≡ none
unfolding next_request reduce fit_i32 ◌+ℤ◌
no_fuel p plan g v = ground arith

two_requests :
    (fuel : ℕ) (p : Profile) (plan : Plan) (n : ℕ) (g : Generator)
    → plan.offload_frac_den ≡ pos 0
    → g.ndp_var ≡ negsuc 0
    → g.which_request < plan.pool_len
    → requests fuel p plan (suc (suc n)) g ≡ none
unfolding requests
two_requests zero p plan n g e v w = ground (arith, no_fuel p plan g v)
two_requests (suc fuel) p plan n g e v w =
    let g' = (choose plan g (pos 0)).1 in
    let next = second_step (suc fuel) p plan g' e (unfold choose in refl) in
    ground (arith, first_step fuel p plan g e v w, next)

first_zero :
    (p : Profile) (plan : Plan)
    → plan.offload_frac_den ≡ pos 0
    → first p plan ≡ ok (record { ndp_var = negsuc 0; which_request = 0; ndp_requests = 0 })
unfolding first fit_i32 ◌-ℤ◌
first_zero p plan e = ground arith

-- In every build, with a denominator of zero and a pool that is not empty, two requests or more
-- are not made on any fuel: the `while` of the second one does not end.
pub zero_denominator :
    (fuel : ℕ) (p : Profile) (plan : Plan) (n : ℕ)
    → plan.offload_frac_den ≡ pos 0
    → 0 < plan.pool_len
    → generate fuel p plan (suc (suc n)) ≡ none
unfolding generate
zero_denominator fuel p plan n e pool = ground (
  arith,
  first_zero p plan e,
  two_requests fuel p plan n (record { ndp_var = negsuc 0; which_request = 0; ndp_requests = 0 }) e
      refl pool,
)
