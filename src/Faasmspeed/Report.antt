-- ===== src/Faasmspeed/Report.antt =====
-- `print_stats` of faasmspeed/src/main.rs at the type u128: the numbers that it prints and returns.
pub mod Quantiles
pub mod Variance
use mathlib.Core.Option
use ndp_auto_offload.Base.{
  ℕ, ◌+◌, ◌*◌, ◌/◌, ◌^◌, List, [], ◌∷◌, map, length, get_elem?, Outcome, ok, ◌>>=◌, if◌then◌else◌,
  ltb,
}
use ndp_auto_offload.Base.Words.{Profile, fit_uint, sub_uint, div_uint, u64_mod, u128_mod}

pub record Summary : Type 0 where
  pub min : ℕ
  pub q01 : ℕ
  pub q1 : ℕ
  pub med : ℕ
  pub q3 : ℕ
  pub q99 : ℕ
  pub max : ℕ
  pub avg : ℕ
  -- the square of the standard deviation, before it is made a float
  pub variance : ℕ

-- `Iterator::sum`
unfoldable pub sum_from : Profile → ℕ → List ℕ → Outcome ℕ
sum_from p acc [] = ok acc
sum_from p acc (x ∷ xs) = do acc' ← fit_uint u128_mod p (acc + x); sum_from p acc' xs

-- `sorted_data.nth(i).unwrap_or(zero)`
unfoldable pub nth_or_zero : List ℕ → ℕ → ℕ
nth_or_zero xs i = Option.get_or (get_elem? xs i) 0

-- `sorted_data.last().unwrap_or(zero)`
unfoldable pub last_or_zero : List ℕ → ℕ
last_or_zero [] = 0
last_or_zero (x ∷ []) = x
last_or_zero (x ∷ y ∷ xs) = last_or_zero (y ∷ xs)

-- `n.max(1)`
unfoldable pub at_least_one : ℕ → ℕ
at_least_one n = if ltb n 1 then 1 else n

-- `(x - avg) * (x - avg)`
unfoldable pub square_diff : Profile → ℕ → ℕ → Outcome ℕ
square_diff p avg x = do d ← sub_uint u128_mod p x avg; fit_uint u128_mod p (d * d)

unfoldable pub square_diffs : Profile → ℕ → List ℕ → Outcome (List ℕ)
square_diffs p avg [] = ok []
square_diffs p avg (x ∷ xs) = do d ← square_diff p avg x; ds ← square_diffs p avg xs; ok (d ∷ ds)

-- `variance.try_into().unwrap_or(0usize)`
unfoldable pub to_usize : ℕ → ℕ
to_usize n = if ltb n u64_mod then n else 0

-- A list of requests is short enough that `99 * n` fits a usize.
unfoldable pub print_stats : Profile → List ℕ → Outcome Summary
print_stats p xs = do
  let n = length xs
  total ← sum_from p 0 xs
  avg ← div_uint total (at_least_one n)
  squares ← square_diffs p avg xs
  square_sum ← sum_from p 0 squares
  variance ← div_uint square_sum (at_least_one n)
  ok (record {
    min = nth_or_zero xs 0;
    q01 = nth_or_zero xs (n / 100);
    q1 = nth_or_zero xs (n / 4);
    med = nth_or_zero xs (n / 2);
    q3 = nth_or_zero xs (3 * n / 4);
    q99 = nth_or_zero xs (99 * n / 100);
    max = last_or_zero xs;
    avg = avg;
    variance = to_usize variance;
  })
