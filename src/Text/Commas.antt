-- ===== src/Text/Commas.antt =====
-- The parts of a line of the tables and packets of the programs between its commas.
use ndp_auto_offload.Base.{ℕ, ◌≡◌, refl, false, arith, ◌<◌, List, [], ◌∷◌, ◌++◌, ◌==◌}
use ndp_auto_offload.Text.{Text, contains, split_when}
use ndp_auto_offload.Text.Print.{show_ℕ}
use ndp_auto_offload.Text.Words.{split_when-first, split_when-last, show_ℕ-without}

-- A text without a comma.
abbrev pub IsField : Text → Type 0
IsField t = contains b',' t ≡ false

abbrev pub split_commas : Text → List Text
split_commas t = split_when (λ c. c == b',') t

pub split_first : (f s : Text) → IsField f → split_commas (f ++ b',' ∷ s) ≡ f ∷ split_commas s
split_first f s h = split_when-first b',' f s h

pub split_last : (f : Text) → IsField f → split_commas f ≡ f ∷ []
split_last f h = split_when-last b',' f h

pub IsField-cons : (c : ℕ) (t : Text) → b',' < c → IsField t → IsField (c ∷ t)
unfolding contains
IsField-cons c t h k = ground arith

-- A printed number has no comma in it.
pub show_ℕ-IsField : (n : ℕ) → IsField (show_ℕ n)
show_ℕ-IsField n = show_ℕ-without b',' n refl
