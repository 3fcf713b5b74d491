-- ===== src/Text.antt =====
-- The parts of Rust's `str` that the programs call. A text is the list of its code points.
pub mod Parse
pub mod Print
pub mod RoundTrip
pub mod Commas
pub mod Words
pub mod Written
use Prim.Native.Char.{code}
use Prim.Native.String.{String}
use mathlib.Core.Option
use ndp_auto_offload.Base.{
  ℕ, Bool, true, false, ◌&&◌, ◌||◌, not, Option, none, some, List, [], ◌∷◌, ◌++◌, leb, ◌==◌,
  if◌then◌else◌, keep, map,
}

abbrev pub Text : Type 0
Text = List ℕ

-- The code points of a literal.
abbrev pub codes : String → Text
codes String.[] = []
codes (String.◌∷◌ c s) = code c ∷ codes s

abbrev pub text_eq : Text → Text → Bool
text_eq [] [] = true
text_eq [] (d ∷ t) = false
text_eq (c ∷ s) [] = false
text_eq (c ∷ s) (d ∷ t) = c == d && text_eq s t

abbrev pub is_empty {ℓ} : {A : Type ℓ} → List A → Bool
is_empty [] = true
is_empty (x ∷ xs) = false

-- `char::is_whitespace`: the code points of the property White_Space
unfoldable pub is_whitespace : ℕ → Bool
is_whitespace c =
    (leb 9 c && leb c 13)
    || c == 32
    || c == 0x85
    || c == 0xa0
    || c == 0x1680
    || (leb 0x2000 c && leb c 0x200a)
    || c == 0x2028
    || c == 0x2029
    || c == 0x202f
    || c == 0x205f
    || c == 0x3000

-- `u8::is_ascii_whitespace`
unfoldable pub is_ascii_whitespace : ℕ → Bool
is_ascii_whitespace c = c == 32 || c == 9 || c == 10 || c == 12 || c == 13

unfoldable pub trim_start : Text → Text
trim_start [] = []
trim_start (c ∷ s) = if is_whitespace c then trim_start s else c ∷ s

-- `c` in front of a text whose end is trimmed
cons_trimmed : ℕ → Text → Text
cons_trimmed c [] = if is_whitespace c then [] else c ∷ []
cons_trimmed c (d ∷ s) = c ∷ d ∷ s

unfoldable pub trim_end : Text → Text
unfolding cons_trimmed
trim_end [] = []
trim_end (c ∷ s) = cons_trimmed c (trim_end s)

unfoldable pub trim : Text → Text
unfolding trim_start trim_end
trim s = trim_end (trim_start s)

unfoldable pub strip_prefix : Text → Text → Option Text
strip_prefix [] s = some s
strip_prefix (p ∷ ps) [] = none
strip_prefix (p ∷ ps) (c ∷ s) = if p == c then strip_prefix ps s else none

unfoldable pub strip_suffix : Text → Text → Option Text
strip_suffix p [] = if text_eq p [] then some [] else none
strip_suffix p (c ∷ s) =
    if text_eq p (c ∷ s) then some [] else Option.map (λ t. c ∷ t) (strip_suffix p s)

unfoldable pub starts_with : Text → Text → Bool
unfolding strip_prefix
starts_with p s = elim (strip_prefix p s) [ none ↦ false | some t ↦ true ]

-- `str::contains` of a character
unfoldable pub contains : ℕ → Text → Bool
contains c [] = false
contains c (d ∷ s) = d == c || contains c s

-- `split_once` at a character
unfoldable pub split_once : ℕ → Text → Option (Text × Text)
split_once sep [] = none
split_once sep (c ∷ s) =
    if c == sep then some ([], s) else Option.map (λ p. (c ∷ p.0, p.1)) (split_once sep s)

abbrev cons_first : ℕ → List Text → List Text
cons_first c [] = (c ∷ []) ∷ []
cons_first c (p ∷ ps) = (c ∷ p) ∷ ps

-- `split` at the characters of a class
unfoldable pub split_when : (ℕ → Bool) → Text → List Text
split_when p [] = [] ∷ []
split_when p (c ∷ s) = let rest = split_when p s in if p c then [] ∷ rest else cons_first c rest

unfoldable pub split_whitespace : Text → List Text
unfolding split_when is_whitespace
split_whitespace s = keep (λ f. not (is_empty f)) (split_when is_whitespace s)

unfoldable pub split_ascii_whitespace : Text → List Text
unfolding split_when is_ascii_whitespace
split_ascii_whitespace s = keep (λ f. not (is_empty f)) (split_when is_ascii_whitespace s)

-- `l` without the carriage return in front of its line feed
strip_cr : Text → Text
unfolding strip_suffix
strip_cr l = Option.get_or (strip_suffix (13 ∷ []) l) l

-- A text that ends in a line feed has no empty line behind it.
finish_lines : List Text → List Text
unfolding strip_cr
finish_lines [] = []
finish_lines (l ∷ []) = if is_empty l then [] else l ∷ []
finish_lines (l ∷ m ∷ r) = strip_cr l ∷ finish_lines (m ∷ r)

unfoldable pub lines : Text → List Text
unfolding split_when finish_lines
lines s = finish_lines (split_when (λ c. c == b'\n') s)

-- `.lines().map(str::trim).filter(|l| !l.is_empty())`
unfoldable pub trimmed_lines : Text → List Text
unfolding lines trim
trimmed_lines s = keep (λ l. not (is_empty l)) (map trim (lines s))
