-- ===== src/Faasmspeed/Errors.antt =====
-- The errors that `async_main` of faasmspeed/src/main.rs prints, with the number of each.
pub mod Grouping
pub mod Order
pub mod Counting
use ndp_auto_offload.Base.{
  ℕ, Bool, true, false, ◌==◌, ltb, List, [], ◌∷◌, ◌++◌, map, length, if◌then◌else◌,
}
use ndp_auto_offload.Text.{Text, codes, is_empty}
use ndp_auto_offload.Text.Print.{show_ℕ}
use ndp_auto_offload.Faasmspeed.Errors.Grouping.{GroupBy}

-- The order of strings: that of their bytes, which is that of their code points.
unfoldable pub text_lt : Text → Text → Bool
text_lt s [] = false
text_lt [] (d ∷ t) = true
text_lt (c ∷ s) (d ∷ t) = if c == d then text_lt s t else ltb c d

unfoldable pub insert_text : Text → List Text → List Text
insert_text e [] = e ∷ []
insert_text e (d ∷ ds) = if text_lt d e then d ∷ insert_text e ds else e ∷ d ∷ ds

-- `err_strs.sort()`
unfoldable pub sort_texts : List Text → List Text
sort_texts [] = []
sort_texts (e ∷ es) = insert_text e (sort_texts es)

-- `.map(|es| es.iter()).flatten()`
unfoldable pub flatten : List (List Text) → List Text
flatten [] = []
flatten (es ∷ rest) = es ++ flatten rest

-- The lines `{num}x {err_str}`.
unfoldable pub error_counts : ⦃itertools : GroupBy⦄ → List (List Text) → List (ℕ × Text)
error_counts ⦃itertools⦄ errors =
    map (λ g. (length g.1, g.0)) (itertools.group_by (sort_texts (flatten errors)))

-- The lines on the standard error, where there is a function.
unfoldable pub error_lines : ⦃itertools : GroupBy⦄ → List (List Text) → List Text
error_lines errors =
    if is_empty errors
    then []
    else map (λ (c : ℕ × Text). show_ℕ c.0 ++ codes "x " ++ c.1) (error_counts errors)
