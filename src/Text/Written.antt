-- ===== src/Text/Written.antt =====
-- The lines of a file that is written line by line, as the programs read it back.
use ndp_auto_offload.Base.{
  ◌≡◌, refl, ap, ◌∙◌, false, ◌==◌, not, keep, List, [], ◌∷◌, ◌++◌, map, All,
}
use ndp_auto_offload.Text.{
  Text, is_empty, contains, split_when, lines, finish_lines, strip_cr, trim, trimmed_lines,
}
use ndp_auto_offload.Text.Words.{IsOneLine, strip_suffix-none, split_when-first}

-- Each line with its line feed.
abbrev pub unlines : List Text → Text
unlines [] = []
unlines (l ∷ ls) = l ++ b'\n' ∷ unlines ls

-- A line that `lines` yields as it was written.
abbrev pub IsLine : Text → Type 0
IsLine l = IsOneLine l × (contains 13 l ≡ false)

-- A line that is one line, with nothing to trim.
pub record IsTrimmed (l : Text) : Type 0 where
  pub one_line : contains b'\n' l ≡ false
  pub no_return : contains 13 l ≡ false
  pub kept : trim l ≡ l
  pub filled : is_empty l ≡ false

split_unlines :
    (ls : List Text) → All IsLine ls → split_when (λ c. c == b'\n') (unlines ls) ≡ ls ++ [] ∷ []
unfolding split_when
split_unlines [] h = refl
split_unlines (l ∷ ls) h =
    split_when-first b'\n' l (unlines ls) h.0.0 ∙ ap (λ r. l ∷ r) (split_unlines ls h.1)

strip_cr_lem : (l : Text) → contains 13 l ≡ false → strip_cr l ≡ l
unfolding strip_cr contains
strip_cr_lem l h = rw (strip_suffix-none 13 (13 ∷ []) l refl h) refl

finish_lines-snoc : (ls : List Text) → All IsLine ls → finish_lines (ls ++ [] ∷ []) ≡ ls
unfolding finish_lines
finish_lines-snoc [] h = refl
finish_lines-snoc (l ∷ []) h = rw (strip_cr_lem l h.0.1) refl
finish_lines-snoc (l ∷ m ∷ ls) h =
    rw (strip_cr_lem l h.0.1) (ap (λ r. l ∷ r) (finish_lines-snoc (m ∷ ls) h.1))

pub lines-unlines : (ls : List Text) → All IsLine ls → lines (unlines ls) ≡ ls
unfolding lines
lines-unlines ls h = rw (split_unlines ls h) (finish_lines-snoc ls h)

All-IsLine : (ls : List Text) → All IsTrimmed ls → All IsLine ls
All-IsLine [] h = tt
All-IsLine (l ∷ ls) h = ((h.0.one_line, h.0.no_return), All-IsLine ls h.1)

keep_trimmed : (ls : List Text) → All IsTrimmed ls → keep (λ l. not (is_empty l)) (map trim ls) ≡ ls
keep_trimmed [] h = refl
keep_trimmed (l ∷ ls) h = rw (h.0.kept, h.0.filled) (ap (λ r. l ∷ r) (keep_trimmed ls h.1))

pub trimmed_lines-unlines : (ls : List Text) → All IsTrimmed ls → trimmed_lines (unlines ls) ≡ ls
unfolding trimmed_lines
trimmed_lines-unlines ls h = rw (lines-unlines ls (All-IsLine ls h)) (keep_trimmed ls h)
