-- ===== src/Faasmspeed/Errors/Grouping.antt =====
-- What faasmspeed/src/main.rs uses of `group_by` of the crate itertools.
use ndp_auto_offload.Base.{◌≡◌, ◌≢◌, ⊤, List, [], ◌∷◌, ◌++◌, All}
use ndp_auto_offload.Text.{Text}

abbrev pub members : List (Text × List Text) → List Text
members [] = []
members ((key, es) ∷ gs) = es ++ members gs

-- A relation between each entry and the next.
abbrev pub Chain : {A : Type 0} → (A → A → Type 0) → List A → Type 0
Chain R [] = ⊤
Chain R (x ∷ []) = ⊤
Chain R (x ∷ y ∷ xs) = R x y × Chain R (y ∷ xs)

-- A group has its key and its elements, at least one, that are equal to it. The groups follow each
-- other in the list, and the next has another key.
pub record GroupBy : Type 0 where
  pub group_by : List Text → List (Text × List Text)
  pub whole : (es : List Text) → members (group_by es) ≡ es
  pub alike : (es : List Text) → All (λ g. (g.1 ≢ []) × All (λ e. e ≡ g.0) g.1) (group_by es)
  pub apart : (es : List Text) → Chain (λ g h. g.0 ≢ h.0) (group_by es)
