-- ===== src/Text/Parse.antt =====
-- `str::parse` for u64 and i64, as `from_str_radix` reads them: an optional sign, then at least one
-- digit, and no overflow.
use mathlib.Core.Option
use ndp_auto_offload.Base.{
  ℕ, ◌+◌, ◌-◌, ◌*◌, ◌^◌, ◌≤◌, ◌<◌, ◌≡◌, ◌&&◌, Option, none, some, [], ◌∷◌, ltb, leb, ◌==◌,
  if◌then◌else◌, arith, suc, zero, refl, inl, inr, Bool-cases,
}
use ndp_auto_offload.Base.Int.{ℤ, pos, negsuc}
use ndp_auto_offload.Base.Words.{IsI64, u64_mod}
use ndp_auto_offload.Text.{Text}

abbrev digit_value : ℕ → Option ℕ
digit_value c = if leb b'0' c && leb c b'9' then some (c - b'0') else none

-- The digits behind `n`; a step past `limit` is an overflow.
unfoldable pub parse_digits : ℕ → Text → ℕ → Option ℕ
parse_digits limit [] n = some n
parse_digits limit (c ∷ s) n = elim (digit_value c) [
  | none ↦ none
  | some d ↦ if ltb limit (n * 10 + d) then none else parse_digits limit s (n * 10 + d)
]

unfoldable pub parse_number : ℕ → Text → Option ℕ
unfolding parse_digits
parse_number limit [] = none
parse_number limit (c ∷ s) = parse_digits limit (c ∷ s) 0

unfoldable pub parse_u64 : Text → Option ℕ
unfolding parse_number
parse_u64 [] = none
parse_u64 (c ∷ s) = parse_number (u64_mod - 1) (if c == b'+' then s else c ∷ s)

abbrev pub neg_ℤ : ℕ → ℤ
neg_ℤ zero = pos 0
neg_ℤ (suc n) = negsuc n

unfoldable pub parse_i64 : Text → Option ℤ
unfolding parse_number
parse_i64 [] = none
parse_i64 (c ∷ s) =
    if c == b'-'
    then Option.map neg_ℤ (parse_number (2 ^ 63) s)
    else Option.map pos (parse_number (2 ^ 63 - 1) (if c == b'+' then s else c ∷ s))

parse_digits-le :
    (limit : ℕ) (s : Text) (n r : ℕ) → n ≤ limit → parse_digits limit s n ≡ some r → r ≤ limit
unfolding parse_digits
parse_digits-le limit [] n r h e = ground arith
parse_digits-le limit (c ∷ s) n r h e =
    ground (arith, parse_digits-le limit s (n * 10 + (c - b'0')) r)

parse_number-le : (limit : ℕ) (s : Text) (r : ℕ) → parse_number limit s ≡ some r → r ≤ limit
unfolding parse_number
parse_number-le limit [] r e = ground arith
parse_number-le limit (c ∷ s) r e = parse_digits-le limit (c ∷ s) 0 r (omega arith) e

-- A parsed u64 fits its type.
pub parse_u64-lt : (s : Text) {r : ℕ} → parse_u64 s ≡ some r → r < u64_mod
unfolding parse_u64
parse_u64-lt [] e = ground arith
parse_u64-lt (c ∷ s) {r} e =
    omega (arith, parse_number-le (u64_mod - 1) (if c == b'+' then s else c ∷ s) r e)

pos-IsI64 :
    (o : Option ℕ) (r : ℤ)
    → ((n : ℕ) → o ≡ some n → n < 2 ^ 63)
    → Option.map pos o ≡ some r
    → IsI64 r
pos-IsI64 none r h e = ground arith
pos-IsI64 (some n) r h e = ground (arith, h n refl)

neg-IsI64 :
    (o : Option ℕ) (r : ℤ)
    → ((n : ℕ) → o ≡ some n → n ≤ 2 ^ 63)
    → Option.map neg_ℤ o ≡ some r
    → IsI64 r
neg-IsI64 none r h e = ground arith
neg-IsI64 (some zero) r h e = ground arith
neg-IsI64 (some (suc n)) r h e = ground (arith, h (suc n) refl)

-- A parsed i64 fits its type.
pub parse_i64-IsI64 : (s : Text) {r : ℤ} → parse_i64 s ≡ some r → IsI64 r
unfolding parse_i64
parse_i64-IsI64 [] e = ground arith
parse_i64-IsI64 (c ∷ s) {r} e = elim (Bool-cases (c == b'-')) [
  | inl minus ↦ neg-IsI64 (parse_number (2 ^ 63) s) r (parse_number-le (2 ^ 63) s) (rw minus at e)
  | inr digit ↦
      let t = if c == b'+' then s else c ∷ s in
      let fits : (n : ℕ) → parse_number (2 ^ 63 - 1) t ≡ some n → n < 2 ^ 63 =
        λ n h. omega (arith, parse_number-le (2 ^ 63 - 1) t n h) in
      pos-IsI64 (parse_number (2 ^ 63 - 1) t) r fits (rw digit at e)
]
