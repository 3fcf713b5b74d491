-- ===== src/Faasmspeed/Report/Variance.antt =====
-- The variance of `print_stats` in faasmspeed/src/main.rs, which has unsigned differences in it.
use native.Mathlib.Nat.{add-mul-mod_self_right, mod-eq_of_lt, div-le_of_le-mul}
use ndp_auto_offload.Base.{
  ℕ, suc, ◌+◌, ◌-◌, ◌*◌, ◌/◌, ◌%◌, ◌≤◌, ◌<◌, ◌≡◌, refl, ◌∙◌, sym, ap, arith, List, [], ◌∷◌, length,
  map, All, ok, panic, overflow, ltb, leb, ltb→lt, leb→le, inl, inr, Bool-cases, if◌then◌else◌,
}
use ndp_auto_offload.Base.Words.{debug, release, fit_uint, sub_uint, u64_mod, u128_mod}
use ndp_auto_offload.Faasmspeed.Report.{
  Summary, square_diff, square_diffs, print_stats, nth_or_zero, last_or_zero, to_usize,
}
use ndp_auto_offload.Faasmspeed.Report.Quantiles.{total, mul_le, sum_from-eq-total, div_uint_lem}

-- How far two values are apart.
abbrev pub distance : ℕ → ℕ → ℕ
distance a b = if leb b a then a - b else b - a

square_shift : (k e : ℕ) → (k + e) * (k + e) ≡ e * e + k * (k + 2 * e)
square_shift k e = omega arith

-- (m - e)² is e² modulo m.
wrapped_square : (m e : ℕ) → 2 * e ≤ m → e * e < m → ((m - e) * (m - e)) % m ≡ e * e
wrapped_square m e h k =
    let j = m - 2 * e in
    let whole : j + 2 * e ≡ m = omega arith in
    let rest : m - e ≡ j + e = omega arith in
    ap (λ q. (q * q) % m) rest
    ∙ ap (λ q. q % m) (square_shift j e)
    ∙ ap (λ q. (e * e + j * q) % m) whole
    ∙ add-mul-mod_self_right (e * e) j m
    ∙ mod-eq_of_lt k

small_square : (e : ℕ) → e < u64_mod → e * e < u128_mod
small_square e h =
    let top : e * e ≤ e * (u64_mod - 1) = mul_le e e (u64_mod - 1) (omega arith) in omega arith

fit_uint_release : (a : ℕ) → fit_uint u128_mod release a ≡ ok (a % u128_mod)
unfolding fit_uint
fit_uint_release a = elim (Bool-cases (ltb a u128_mod)) [
  | inl fits ↦ rw fits (ap ok (sym (mod-eq_of_lt (ltb→lt a u128_mod fits))))
  | inr wraps ↦ rw wraps
]

sub_uint_above : (avg x : ℕ) → avg ≤ x → sub_uint u128_mod release x avg ≡ ok (x - avg)
unfolding sub_uint
sub_uint_above avg x h = ground arith

sub_uint_below :
    (avg x : ℕ)
    → x < avg
    → avg < u64_mod
    → sub_uint u128_mod release x avg ≡ ok (u128_mod - (avg - x))
unfolding sub_uint
sub_uint_below avg x h k = ground arith

-- In a release build, for a value and an average below 2 ^ 64, the difference may wrap around, and
-- its square is that of the distance between them.
square_diff_lem :
    (avg x : ℕ)
    → avg < u64_mod
    → x < u64_mod
    → square_diff release avg x ≡ ok (distance x avg * distance x avg)
unfolding square_diff
square_diff_lem avg x ha hx = elim (Bool-cases (leb avg x)) [
  | inl above ↦
      let e = x - avg in
      rw (above, sub_uint_above avg x (leb→le avg x above), fit_uint_release)
        (ap ok (mod-eq_of_lt (small_square e (omega arith))))
  | inr below ↦
      let e = avg - x in
      rw (below, sub_uint_below avg x (ground arith) ha, fit_uint_release)
        (ap ok (wrapped_square u128_mod e (omega arith) (small_square e (omega arith))))
]

unfoldable pub squared_distances : ℕ → List ℕ → List ℕ
squared_distances avg xs = map (λ x. distance x avg * distance x avg) xs

square_diffs_lem :
    (avg : ℕ) (xs : List ℕ)
    → avg < u64_mod
    → All (λ x. x < u64_mod) xs
    → square_diffs release avg xs ≡ ok (squared_distances avg xs)
unfolding square_diffs squared_distances
square_diffs_lem avg [] ha h = refl
square_diffs_lem avg (x ∷ xs) ha h =
    ground (arith, square_diff_lem avg x ha h.0, square_diffs_lem avg xs ha h.1)

total-le : (xs : List ℕ) → All (λ x. x < u64_mod) xs → total xs ≤ length xs * (u64_mod - 1)
unfolding total
total-le [] h = omega arith
total-le (x ∷ xs) h = omega (arith, h.0, total-le xs h.1)

average-lt :
    (x : ℕ) (xs : List ℕ)
    → All (λ y. y < u64_mod) (x ∷ xs)
    → total (x ∷ xs) / suc (length xs) < u64_mod
average-lt x xs h =
    let mean = div-le_of_le-mul (suc (length xs)) {n = u64_mod - 1} (total-le (x ∷ xs) h) in
    omega arith

-- In a release build, for data that are not empty, whose values are below 2 ^ 64, and whose sum
-- and whose sum of squared distances from the integer average are below 2 ^ 128, the report has
-- this average, and the integer mean of these squares as far as it fits a usize.
pub print_stats_variance :
    (x : ℕ) (xs : List ℕ)
    → All (λ y. y < u64_mod) (x ∷ xs)
    → total (x ∷ xs) < u128_mod
    → total (squared_distances (total (x ∷ xs) / suc (length xs)) (x ∷ xs)) < u128_mod
    → (s : Summary) × (print_stats release (x ∷ xs) ≡ ok s)
      × (s.avg ≡ total (x ∷ xs) / suc (length xs))
      × (s.variance ≡ to_usize (total (squared_distances s.avg (x ∷ xs)) / suc (length xs)))
unfolding print_stats
print_stats_variance x xs h fits squares_fit =
    let n = suc (length xs) in
    let avg = total (x ∷ xs) / n in
    let squares = total (squared_distances avg (x ∷ xs)) in
    let data_ = x ∷ xs in
    (
      record {
        min = nth_or_zero data_ 0;
        q01 = nth_or_zero data_ (n / 100);
        q1 = nth_or_zero data_ (n / 4);
        med = nth_or_zero data_ (n / 2);
        q3 = nth_or_zero data_ (3 * n / 4);
        q99 = nth_or_zero data_ (99 * n / 100);
        max = last_or_zero data_;
        avg = avg;
        variance = to_usize (squares / n);
      },
      ground (
        arith,
        sum_from-eq-total release 0 data_ (omega arith),
        div_uint_lem (total data_) (length xs),
        square_diffs_lem avg data_ (average-lt x xs h) h,
        sum_from-eq-total release 0 (squared_distances avg data_) (omega arith),
        div_uint_lem squares (length xs),
      ),
      refl,
      refl,
    )

-- In a debug build a value below the average ends the program.
pub square_diff_debug : (avg x : ℕ) → x < avg → square_diff debug avg x ≡ panic overflow
unfolding square_diff sub_uint
square_diff_debug avg x h = ground arith

-- In a debug build the report of data whose sum fits a u128 and whose first value is below the
-- average panics.
pub print_stats_debug :
    (x : ℕ) (xs : List ℕ)
    → total (x ∷ xs) < u128_mod
    → x < total (x ∷ xs) / suc (length xs)
    → print_stats debug (x ∷ xs) ≡ panic overflow
unfolding print_stats square_diffs
print_stats_debug x xs fits below = ground (
  arith,
  sum_from-eq-total debug 0 (x ∷ xs) (omega arith),
  div_uint_lem (total (x ∷ xs)) (length xs),
  square_diff_debug (total (x ∷ xs) / suc (length xs)) x below,
)
