-- ===== src/Text/Words.antt =====
-- Words without white space in them: how `trim`, `strip_suffix` and `split_once` of Rust's `str` take
-- them out of a line.
use ndp_auto_offload.Base.{
  ℕ, zero, suc, ◌/◌, ◌≡◌, refl, arith, inl, inr, Bool-cases, Bool, true, false, not, ◌&&◌, none,
  some, [], ◌∷◌, ◌++◌, ◌==◌, leb, ltb, replicate, append-nil,
}
use ndp_auto_offload.Text.{
  Text, is_empty, is_whitespace, contains, text_eq, trim, trim_start, trim_end, cons_trimmed,
  strip_suffix, split_once, split_when,
}
use ndp_auto_offload.Text.Print.{show_digits, show_ℕ}

-- No character is white space.
abbrev pub is_solid : Text → Bool
is_solid [] = true
is_solid (c ∷ t) = not (is_whitespace c) && is_solid t

-- A text on one line.
abbrev pub IsOneLine : Text → Type 0
IsOneLine t = contains b'\n' t ≡ false

abbrev is_digit : ℕ → Bool
is_digit c = leb b'0' c && leb c b'9'

abbrev digits_only : Text → Bool
digits_only [] = true
digits_only (c ∷ t) = is_digit c && digits_only t

abbrev pub spaces : ℕ → Text
spaces n = replicate n b' '

solid_head : (c : ℕ) (t : Text) → is_solid (c ∷ t) ≡ true → is_whitespace c ≡ false
solid_head c t h = ground arith

solid_tail : (c : ℕ) (t : Text) → is_solid (c ∷ t) ≡ true → is_solid t ≡ true
solid_tail c t h = ground arith

digit_solid : (c : ℕ) → is_digit c ≡ true → is_whitespace c ≡ false
unfolding is_whitespace
digit_solid c h = ground arith

digits-solid : (t : Text) → digits_only t ≡ true → is_solid t ≡ true
digits-solid [] h = refl
digits-solid (c ∷ t) h = ground (arith, digit_solid c, digits-solid t)

show_digits-digits :
    (fuel n : ℕ) (out : Text) → digits_only out ≡ true → digits_only (show_digits fuel n out) ≡ true
unfolding show_digits
show_digits-digits zero n out h = h
show_digits-digits (suc fuel) n out h = elim (Bool-cases (ltb n 10)) [
  | inl small ↦ rw small (ground arith)
  | inr large ↦ rw large (show_digits-digits fuel (n / 10) _ (ground arith))
]

show_ℕ-digits : (n : ℕ) → digits_only (show_ℕ n) ≡ true
unfolding show_ℕ
show_ℕ-digits n = show_digits-digits (suc n) n [] refl

pub show_ℕ-solid : (n : ℕ) → is_solid (show_ℕ n) ≡ true
show_ℕ-solid n = digits-solid (show_ℕ n) (show_ℕ-digits n)

digits-without :
    (c : ℕ) (t : Text) → is_digit c ≡ false → digits_only t ≡ true → contains c t ≡ false
unfolding contains
digits-without c [] h k = refl
digits-without c (d ∷ t) h k = ground (arith, digits-without c t h)

pub show_ℕ-without : (c n : ℕ) → is_digit c ≡ false → contains c (show_ℕ n) ≡ false
show_ℕ-without c n h = digits-without c (show_ℕ n) h (show_ℕ-digits n)

filled_digits :
    (fuel n : ℕ) (out : Text) → is_empty out ≡ false → is_empty (show_digits fuel n out) ≡ false
unfolding show_digits
filled_digits zero n out h = h
filled_digits (suc fuel) n out h = elim (Bool-cases (ltb n 10)) [
  | inl small ↦ rw small refl
  | inr large ↦ rw large (filled_digits fuel (n / 10) _ refl)
]

pub show_ℕ-filled : (n : ℕ) → is_empty (show_ℕ n) ≡ false
unfolding show_ℕ show_digits
show_ℕ-filled n = elim (Bool-cases (ltb n 10)) [
  | inl small ↦ rw small refl
  | inr large ↦ rw large (filled_digits n (n / 10) _ refl)
]

apart : (c d : ℕ) → is_whitespace c ≡ true → is_whitespace d ≡ false → (d == c) ≡ false
apart c d h k = elim (Bool-cases (d == c)) [
  | inl t ↦ (let e : d ≡ c = ground arith in absurd (cc))
  | inr f ↦ f
]

pub solid-without :
    (c : ℕ) (t : Text) → is_whitespace c ≡ true → is_solid t ≡ true → contains c t ≡ false
unfolding contains
solid-without c [] h k = refl
solid-without c (d ∷ t) h k = ground (arith, apart c d, solid-without c t)

pub contains-append :
    (c : ℕ) (s t : Text) → contains c s ≡ false → contains c t ≡ false → contains c (s ++ t) ≡ false
unfolding contains
contains-append c [] t h k = k
contains-append c (d ∷ s) t h k = ground (arith, contains-append c s t)

pub spaces-without : (c n : ℕ) → (c == b' ') ≡ false → contains c (spaces n) ≡ false
unfolding contains
spaces-without c zero h = refl
spaces-without c (suc n) h = ground (arith, spaces-without c n h)

pub trim_start-spaces : (n : ℕ) (t : Text) → trim_start (spaces n ++ t) ≡ trim_start t
unfolding trim_start is_whitespace
trim_start-spaces zero t = refl
trim_start-spaces (suc n) t = trim_start-spaces n t

pub trim_start_solid :
    (s t : Text) → is_empty s ≡ false → is_solid s ≡ true → trim_start (s ++ t) ≡ s ++ t
unfolding trim_start
trim_start_solid [] t h k = ground arith
trim_start_solid (c ∷ s) t h k = ground arith

cons_trimmed_filled : (c : ℕ) (t : Text) → is_empty t ≡ false → cons_trimmed c t ≡ c ∷ t
unfolding cons_trimmed
cons_trimmed_filled c [] h = ground arith
cons_trimmed_filled c (d ∷ t) h = refl

pub trim_end_solid : (t : Text) → is_solid t ≡ true → trim_end t ≡ t
unfolding trim_end cons_trimmed
trim_end_solid [] h = refl
trim_end_solid (c ∷ []) h = ground arith
trim_end_solid (c ∷ d ∷ t) h = rw (trim_end_solid (d ∷ t) (ground arith)) refl

pub filled-append : (s t : Text) → is_empty t ≡ false → is_empty (s ++ t) ≡ false
filled-append [] t h = h
filled-append (c ∷ s) t h = refl

-- A text in front of one with no end to trim.
pub trim_end-append :
    (s t : Text) → is_empty t ≡ false → trim_end t ≡ t → trim_end (s ++ t) ≡ s ++ t
unfolding trim_end
trim_end-append [] t h k = k
trim_end-append (c ∷ s) t h k =
    rw (trim_end-append s t h k) (cons_trimmed_filled c (s ++ t) (filled-append s t h))

cons_trimmed_solid : (c : ℕ) (t : Text) → is_whitespace c ≡ false → cons_trimmed c t ≡ c ∷ t
unfolding cons_trimmed
cons_trimmed_solid c [] h = ground arith
cons_trimmed_solid c (d ∷ t) h = refl

-- A word with white space behind it.
trim_end_space : trim_end (b' ' ∷ []) ≡ []
unfolding trim_end cons_trimmed is_whitespace
trim_end_space = refl

pub trim_end-space : (t : Text) → is_solid t ≡ true → trim_end (t ++ b' ' ∷ []) ≡ t
unfolding trim_end
trim_end-space [] h = trim_end_space
trim_end-space (c ∷ t) h =
    rw (trim_end-space t (solid_tail c t h)) (cons_trimmed_solid c t (solid_head c t h))

text_eq_refl : (s : Text) → text_eq s s ≡ true
text_eq_refl [] = refl
text_eq_refl (c ∷ s) = ground (arith, text_eq_refl s)

pub strip_suffix_end :
    (k : ℕ) (p s : Text) → contains k s ≡ false → strip_suffix (k ∷ p) (s ++ k ∷ p) ≡ some s
unfolding strip_suffix contains
strip_suffix_end k p [] h = rw (text_eq_refl (k ∷ p)) refl
strip_suffix_end k p (c ∷ s) h = ground (arith, strip_suffix_end k p s)

text_ne : (k : ℕ) (p s : Text) → contains k p ≡ true → contains k s ≡ false → text_eq p s ≡ false
unfolding contains
text_ne k [] s h e = ground arith
text_ne k (c ∷ p) [] h e = refl
text_ne k (c ∷ p) (d ∷ s) h e = ground (arith, text_ne k p s)

-- A text without a character does not end in a suffix that has it.
pub strip_suffix-none :
    (k : ℕ) (p s : Text) → contains k p ≡ true → contains k s ≡ false → strip_suffix p s ≡ none
unfolding strip_suffix contains
strip_suffix-none k p [] h e = rw (text_ne k p [] h e) refl
strip_suffix-none k p (c ∷ s) h e =
    rw (text_ne k p (c ∷ s) h e) rw (strip_suffix-none k p s h (ground arith)) refl

pub split_once-first :
    (sep : ℕ) (s t : Text) → contains sep s ≡ false → split_once sep (s ++ sep ∷ t) ≡ some (s, t)
unfolding split_once contains
split_once-first sep [] t h = ground arith
split_once-first sep (c ∷ s) t h = ground (arith, split_once-first sep s t)

pub trim_word : (t : Text) → is_empty t ≡ false → is_solid t ≡ true → trim t ≡ t
unfolding trim
trim_word t h k =
    rw (← append-nil t, trim_start_solid t [] h k) (rw (append-nil t) (trim_end_solid t k))

-- The parts of a text between the characters `sep`.
pub split_when-first :
    (sep : ℕ) (f t : Text)
    → contains sep f ≡ false
    → split_when (λ c. c == sep) (f ++ sep ∷ t) ≡ f ∷ split_when (λ c. c == sep) t
unfolding split_when contains
split_when-first sep [] t h = ground arith
split_when-first sep (c ∷ f) t h = ground (arith, split_when-first sep f t)

pub split_when-last :
    (sep : ℕ) (f : Text) → contains sep f ≡ false → split_when (λ c. c == sep) f ≡ f ∷ []
unfolding split_when contains
split_when-last sep [] h = refl
split_when-last sep (c ∷ f) h = ground (arith, split_when-last sep f)
