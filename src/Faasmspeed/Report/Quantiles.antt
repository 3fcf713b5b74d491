-- ===== src/Faasmspeed/Report/Quantiles.antt =====
-- The order of the numbers that `print_stats` of faasmspeed/src/main.rs reports of sorted data.
use native.Mathlib.Nat.{le-div_iff_mul-le, div-le_of_le-mul}
use ndp_auto_offload.Base.{
  ⊤, ℕ, zero, suc, ◌+◌, ◌-◌, ◌*◌, ◌/◌, ◌≤◌, ◌<◌, ◌≡◌, refl, ap, arith, List, [], ◌∷◌, length, ok,
  inl, inr, Bool-cases, ◌%◌, leb, ltb, if◌then◌else◌,
}
use ndp_auto_offload.Base.Words.{Profile, release, sub_uint, fit_uint, div_uint, u128_mod}
use ndp_auto_offload.Faasmspeed.Report.{
  Summary, nth_or_zero, last_or_zero, sum_from, at_least_one, square_diff, square_diffs, to_usize,
  print_stats,
}

abbrev pub IsSorted : List ℕ → Type 0
IsSorted [] = ⊤
IsSorted (x ∷ []) = ⊤
IsSorted (x ∷ y ∷ xs) = (x ≤ y) × IsSorted (y ∷ xs)

IsSorted-tail : (x : ℕ) (xs : List ℕ) → IsSorted (x ∷ xs) → IsSorted xs
IsSorted-tail x [] h = tt
IsSorted-tail x (y ∷ xs) h = h.1

head-le-nth :
    (x : ℕ) (xs : List ℕ) (i : ℕ) → IsSorted (x ∷ xs) → i ≤ length xs → x ≤ nth_or_zero (x ∷ xs) i
unfolding nth_or_zero
head-le-nth x xs zero h k = omega arith
head-le-nth x [] (suc i) h k = absurd (omega arith)
head-le-nth x (y ∷ xs) (suc i) h k = omega (arith, h.0, head-le-nth y xs i h.1 (omega arith))

-- In sorted data an earlier place holds no larger value.
nth_mono :
    (xs : List ℕ) (i j : ℕ)
    → IsSorted xs
    → i ≤ j
    → j < length xs
    → nth_or_zero xs i ≤ nth_or_zero xs j
unfolding nth_or_zero
nth_mono [] i j h k l = elim l [ ]
nth_mono (x ∷ xs) zero j h k l = head-le-nth x xs j h (omega arith)
nth_mono (x ∷ xs) (suc i) zero h k l = elim k [ ]
nth_mono (x ∷ xs) (suc i) (suc j) h k l =
    nth_mono xs i j (IsSorted-tail x xs h) (omega arith) (omega arith)

last-eq-nth : (x : ℕ) (xs : List ℕ) → last_or_zero (x ∷ xs) ≡ nth_or_zero (x ∷ xs) (length xs)
unfolding last_or_zero nth_or_zero
last-eq-nth x [] = refl
last-eq-nth x (y ∷ xs) = last-eq-nth y xs

-- What the numbers of a report promise.
pub record IsOrdered (s : Summary) : Type 0 where
  pub min_q01 : s.min ≤ s.q01
  pub q01_q1 : s.q01 ≤ s.q1
  pub q1_med : s.q1 ≤ s.med
  pub med_q3 : s.med ≤ s.q3
  pub q3_q99 : s.q3 ≤ s.q99
  pub q99_max : s.q99 ≤ s.max
  pub min_avg : s.min ≤ s.avg
  pub avg_max : s.avg ≤ s.max

unfoldable pub total : List ℕ → ℕ
total [] = 0
total (x ∷ xs) = x + total xs

pub mul_le : (n x y : ℕ) → x ≤ y → n * x ≤ n * y
mul_le n x y h = grind arith

head-le-last : (x : ℕ) (xs : List ℕ) → IsSorted (x ∷ xs) → x ≤ last_or_zero (x ∷ xs)
head-le-last x xs h = rw (last-eq-nth x xs) (head-le-nth x xs (length xs) h (omega arith))

-- A sum of sorted data lies between its length times its first and its last value.
total_bounds :
    (x : ℕ) (xs : List ℕ)
    → IsSorted (x ∷ xs)
    → (suc (length xs) * x ≤ total (x ∷ xs))
      × (total (x ∷ xs) ≤ suc (length xs) * last_or_zero (x ∷ xs))
unfolding total last_or_zero
total_bounds x [] h = omega arith
total_bounds x (y ∷ xs) h =
    let (low, high) = total_bounds y xs h.1 in
    let scaled = mul_le (suc (length xs)) x y h.0 in
    let top : x ≤ last_or_zero (y ∷ xs) = omega (arith, h.0, head-le-last y xs h.1) in
    (omega arith, omega arith)

pub sum_from-eq-total :
    (p : Profile) (acc : ℕ) (xs : List ℕ)
    → acc + total xs < u128_mod
    → sum_from p acc xs ≡ ok (acc + total xs)
unfolding sum_from total fit_uint
sum_from-eq-total p acc [] h = ap ok (omega arith)
sum_from-eq-total p acc (x ∷ xs) h =
    let e : acc + x + total xs ≡ acc + (x + total xs) = omega arith in
    ground (arith, sum_from-eq-total p (acc + x) xs (omega arith), e)

sum_from_release : (acc : ℕ) (xs : List ℕ) → (t : ℕ) × (sum_from release acc xs ≡ ok t)
unfolding sum_from fit_uint
sum_from_release acc [] = (acc, refl)
sum_from_release acc (x ∷ xs) = elim (Bool-cases (ltb (acc + x) u128_mod)) [
  | inl fits ↦ rw fits (sum_from_release (acc + x) xs)
  | inr wraps ↦ rw wraps (sum_from_release ((acc + x) % u128_mod) xs)
]

fit_release : (a : ℕ) → (r : ℕ) × (fit_uint u128_mod release a ≡ ok r)
unfolding fit_uint
fit_release a = (if ltb a u128_mod then a else a % u128_mod, ground arith)

sub_release : (a b : ℕ) → (r : ℕ) × (sub_uint u128_mod release a b ≡ ok r)
unfolding sub_uint
sub_release a b = (if leb b a then a - b else a + u128_mod - b, ground arith)

square_diff_release : (avg x : ℕ) → (d : ℕ) × (square_diff release avg x ≡ ok d)
unfolding square_diff
square_diff_release avg x =
    let (d, e) = sub_release x avg in let (r, f) = fit_release (d * d) in (r, ground arith)

square_diffs_release :
    (avg : ℕ) (xs : List ℕ) → (ds : List ℕ) × (square_diffs release avg xs ≡ ok ds)
unfolding square_diffs
square_diffs_release avg [] = ([], refl)
square_diffs_release avg (x ∷ xs) =
    let (d, e) = square_diff_release avg x in
    let (ds, es) = square_diffs_release avg xs in (d ∷ ds, ground arith)

pub div_uint_lem : (a n : ℕ) → div_uint a (at_least_one (suc n)) ≡ ok (a / suc n)
unfolding div_uint at_least_one
div_uint_lem a n = ground arith

div_bounds : (t m x y : ℕ) → 0 < m → m * x ≤ t → t ≤ m * y → (x ≤ t / m) × (t / m ≤ y)
div_bounds t m x y h low high = ((le-div_iff_mul-le h).1 (omega arith), div-le_of_le-mul m high)

average_bounds :
    (x : ℕ) (xs : List ℕ)
    → IsSorted (x ∷ xs)
    → let avg = total (x ∷ xs) / suc (length xs) in (x ≤ avg) × (avg ≤ last_or_zero (x ∷ xs))
average_bounds x xs h =
    let (low, high) = total_bounds x xs h in
    div_bounds (total (x ∷ xs)) (suc (length xs)) x (last_or_zero (x ∷ xs)) (omega arith) low high

-- In a release build, for sorted data that are not empty and whose sum fits a u128, the report is
-- made, and its numbers are in order: the quantiles rise from the least to the largest value, and
-- the average lies between these.
pub print_stats-IsOrdered :
    (x : ℕ) (xs : List ℕ)
    → IsSorted (x ∷ xs)
    → total (x ∷ xs) < u128_mod
    → (s : Summary) × (print_stats release (x ∷ xs) ≡ ok s) × IsOrdered s
unfolding print_stats
print_stats-IsOrdered x xs h fits =
    let n = suc (length xs) in
    let avg = total (x ∷ xs) / n in
    let (squares, es) = square_diffs_release avg (x ∷ xs) in
    let (square_sum, et) = sum_from_release 0 squares in
    let data_ = x ∷ xs in
    let place = λ (i j : ℕ) (k : i ≤ j) (l : j < n). nth_mono data_ i j h k l in
    (
      record {
        min = nth_or_zero data_ 0;
        q01 = nth_or_zero data_ (n / 100);
        q1 = nth_or_zero data_ (n / 4);
        med = nth_or_zero data_ (n / 2);
        q3 = nth_or_zero data_ (3 * n / 4);
        q99 = nth_or_zero data_ (99 * n / 100);
        max = last_or_zero data_;
        avg = avg;
        variance = to_usize (square_sum / n);
      },
      ground (
        arith,
        sum_from-eq-total release 0 data_ (omega arith),
        div_uint_lem (total data_) (length xs),
        div_uint_lem square_sum (length xs),
      ),
      record {
        min_q01 = place 0 (n / 100) (omega arith) (omega arith);
        q01_q1 = place (n / 100) (n / 4) (omega arith) (omega arith);
        q1_med = place (n / 4) (n / 2) (omega arith) (omega arith);
        med_q3 = place (n / 2) (3 * n / 4) (omega arith) (omega arith);
        q3_q99 = place (3 * n / 4) (99 * n / 100) (omega arith) (omega arith);
        q99_max =
            rw (last-eq-nth x xs) (place (99 * n / 100) (length xs) (omega arith) (omega arith));
        min_avg = unfold nth_or_zero in (average_bounds x xs h).0;
        avg_max = (average_bounds x xs h).1;
      },
    )
