-- ===== src/Faasmspeed/Phases/Percent.antt =====
-- The line of progress in `async_main` of faasmspeed/src/main.rs.
use ndp_auto_offload.Base.{
  ◌≡◌, refl, arith, length, ℕ, zero, suc, ◌*◌, ◌/◌, ◌<◌, ◌≤◌, ◌^◌, ◌==◌, Bool, if◌then◌else◌, List,
  Outcome, ok, panic, ◌>>=◌, divide_by_zero, overflow,
}
use native.Mathlib.Nat.{div-le_of_le-mul}
use ndp_auto_offload.Base.Int.{ℤ, pos, negsuc, ◌*ℤ◌, sub_ℕ}
use ndp_auto_offload.Base.Words.{Profile, u64_mod, as_i64, fit_i64, fit_i64-eq-ok}
use ndp_auto_offload.Faasmspeed.Phases.{System, Reach, new_system}
use ndp_auto_offload.Faasmspeed.Phases.Parties.{Barrier}
use ndp_auto_offload.Faasmspeed.Phases.Totals.{requests_of, counters_le, total_counted}
use ndp_auto_offload.Faasmspeed.Phases.Monitoring.{passed}

abbrev pub negate : ℕ → ℤ
negate n = sub_ℕ 0 n

-- `/` of i64 rounds towards zero, and panics on zero, and on the quotient of `i64::MIN` and -1, in
-- every build.
unfoldable pub div_i64 : ℤ → ℤ → Outcome ℤ
div_i64 a (pos zero) = panic divide_by_zero
div_i64 (pos a) (pos (suc b)) = ok (pos (a / suc b))
div_i64 (pos a) (negsuc b) = ok (negate (a / suc b))
div_i64 (negsuc a) (pos (suc b)) = ok (negate (suc a / suc b))
div_i64 (negsuc a) (negsuc b) =
    if suc a / suc b == 2 ^ 63 then panic overflow else ok (pos (suc a / suc b))

-- `recv * 100 / total`, of the counters as they were loaded.
unfoldable pub percent : Profile → ℕ → ℕ → Outcome ℤ
percent p recv total = do
  hundredfold ← fit_i64 p (as_i64 recv *ℤ pos 100)
  div_i64 hundredfold (as_i64 total)

fits_small :
    (n m : ℕ)
    → n ≤ m
    → m * 100 < 2 ^ 63
    → (as_i64 n ≡ pos n) × (as_i64 n *ℤ pos 100 ≡ pos (n * 100))
unfolding as_i64 ◌*ℤ◌
fits_small n m h fits = ground arith

div_i64_small :
    (a b : ℕ)
    → div_i64 (pos a) (pos b) ≡ (if b == 0 then panic divide_by_zero else ok (pos (a / b)))
unfolding div_i64
div_i64_small a zero = refl
div_i64_small a (suc b) = ground arith

percent_small :
    (p : Profile) (recv total : ℕ)
    → recv ≤ total
    → total * 100 < 2 ^ 63
    → percent p recv total
      ≡ (if total == 0 then panic divide_by_zero else ok (pos (recv * 100 / total)))
unfolding percent
percent_small p recv total h fits = rw (fits_small recv total h fits).1 (
    rw (fit_i64-eq-ok p (pos (recv * 100)) (omega (arith, h, fits)))
      (rw (fits_small total total (omega arith) fits).0 (div_i64_small (recv * 100) total)))

hundred : (a b : ℕ) → a ≤ b → a * 100 / b ≤ 100
hundred a b h = div-le_of_le-mul b {n = 100} (omega (arith, h))

module _ {B : Type 0} ⦃bar : Barrier B⦄ (oneshot : Bool) (plans : List (List Bool))
    (size : bar.size ≡ suc (length plans)) (fits : requests_of plans * 100 < 2 ^ 63) where
  -- In every run, in any order, of less than 2 ^ 63 / 100 planned requests, once the total is counted,
  -- `recv * 100 / total` panics in every build if no request is planned, and otherwise, without an
  -- overflow, is the percentage of the planned requests that were received; it is at most 100.
  pub percent_range :
      (p : Profile) (s u : System B)
      → Reach oneshot (new_system bar.fresh plans) s
      → Reach oneshot (new_system bar.fresh plans) u
      → 3 ≤ passed s.main.stage
      → (percent p u.shared.recv_requests s.shared.total_requests ≡ (
          if requests_of plans == 0
          then panic divide_by_zero
          else ok (pos (u.shared.recv_requests * 100 / requests_of plans))))
        × (u.shared.recv_requests * 100 / requests_of plans ≤ 100)
  percent_range p s u rs ru three =
      let some_fit : requests_of plans < u64_mod = omega (arith, fits) in
      let total = total_counted oneshot plans size some_fit s rs three in
      let (a, b, c, _) = counters_le oneshot plans size some_fit u ru in
      let least : u.shared.recv_requests ≤ requests_of plans = omega (arith, a, b, c) in
      (
        rw total (percent_small p u.shared.recv_requests (requests_of plans) least fits),
        hundred _ _ least,
      )
