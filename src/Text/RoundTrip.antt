-- ===== src/Text/RoundTrip.antt =====
-- `parse` of printed numbers.
use mathlib.Core.Option
use ndp_auto_offload.Base.{
  ℕ, zero, suc, ◌+◌, ◌-◌, ◌*◌, ◌/◌, ◌%◌, ◌^◌, ◌≤◌, ◌<◌, ◌≡◌, refl, ◌∙◌, ap, arith, [], ◌∷◌, some,
  ltb, Bool-cases, inl, inr,
}
use ndp_auto_offload.Base.Int.{ℤ, pos, negsuc}
use ndp_auto_offload.Base.Words.{IsI64}
use ndp_auto_offload.Text.{Text}
use ndp_auto_offload.Text.Parse.{parse_digits, parse_number, parse_i64, neg_ℤ}
use ndp_auto_offload.Text.Print.{show_digits, show_ℕ, show_ℤ}

parse_digits-step :
    (limit n d : ℕ) (s : Text)
    → d < 10
    → n * 10 + d ≤ limit
    → parse_digits limit ((b'0' + d) ∷ s) n ≡ parse_digits limit s (n * 10 + d)
unfolding parse_digits
parse_digits-step limit n d s h k = ground arith

parse_digits-show_digits :
    (limit fuel n : ℕ) (acc : Text)
    → n < fuel
    → n ≤ limit
    → parse_digits limit (show_digits fuel n acc) 0 ≡ parse_digits limit acc n
unfolding show_digits
parse_digits-show_digits limit zero n acc h k = absurd (omega arith)
parse_digits-show_digits limit (suc fuel) n acc h k = elim (Bool-cases (ltb n 10)) [
  | inl small ↦
      let whole : 0 * 10 + n ≡ n = omega arith in
      rw small (
        parse_digits-step limit 0 n acc (ground arith) (omega arith)
        ∙ ap (parse_digits limit acc) whole)
  | inr large ↦
      let more =
        parse_digits-show_digits limit fuel (n / 10) ((b'0' + n % 10) ∷ acc) (ground arith)
          (omega arith) in
      let whole : n / 10 * 10 + n % 10 ≡ n = omega arith in
      rw large (
        more
        ∙ parse_digits-step limit (n / 10) (n % 10) acc (omega arith) (omega arith)
        ∙ ap (parse_digits limit acc) whole)
]

-- What a printed number begins with.
IsNumeral : Text → Type 0
IsNumeral [] = ⊥
IsNumeral (c ∷ s) = b'0' ≤ c

show_digits-IsNumeral : (fuel n : ℕ) (acc : Text) → n < fuel → IsNumeral (show_digits fuel n acc)
unfolding show_digits IsNumeral
show_digits-IsNumeral zero n acc h = absurd (omega arith)
show_digits-IsNumeral (suc fuel) n acc h = elim (Bool-cases (ltb n 10)) [
  | inl small ↦ rw small (omega arith)
  | inr large ↦ rw large (show_digits-IsNumeral fuel (n / 10) _ (ground arith))
]

parse_number-digits :
    (limit : ℕ) (s : Text) → IsNumeral s → parse_number limit s ≡ parse_digits limit s 0
unfolding parse_number IsNumeral
parse_number-digits limit [] h = elim h [ ]
parse_number-digits limit (c ∷ s) h = refl

pub parse_number-show_ℕ : (limit n : ℕ) → n ≤ limit → parse_number limit (show_ℕ n) ≡ some n
unfolding show_ℕ parse_digits
parse_number-show_ℕ limit n h =
    parse_number-digits limit (show_digits (suc n) n [])
      (show_digits-IsNumeral (suc n) n [] (omega arith))
    ∙ parse_digits-show_digits limit (suc n) n [] (omega arith) h

positive : (s : Text) → IsNumeral s → parse_i64 s ≡ Option.map pos (parse_number (2 ^ 63 - 1) s)
unfolding parse_i64 IsNumeral
positive [] h = elim h [ ]
positive (c ∷ s) h = ground arith

negative : (s : Text) → parse_i64 (b'-' ∷ s) ≡ Option.map neg_ℤ (parse_number (2 ^ 63) s)
unfolding parse_i64
negative s = refl

-- `parse` of a printed i64 gives the number, negative or not.
pub parse_i64-show_ℤ : (z : ℤ) → IsI64 z → parse_i64 (show_ℤ z) ≡ some z
unfolding show_ℤ show_ℕ
parse_i64-show_ℤ (pos n) h =
    positive (show_ℕ n) (show_digits-IsNumeral (suc n) n [] (omega arith))
    ∙ ap (Option.map pos) (parse_number-show_ℕ (2 ^ 63 - 1) n (omega arith))
parse_i64-show_ℤ (negsuc n) h =
    negative (show_ℕ (suc n))
    ∙ ap (Option.map neg_ℤ) (parse_number-show_ℕ (2 ^ 63) (suc n) (omega arith))
