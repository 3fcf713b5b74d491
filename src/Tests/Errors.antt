-- ===== src/Tests/Errors.antt =====
-- The errors of faasmspeed/src/main.rs with a concrete grouping.
use ndp_auto_offload.Base.{
  refl, sym, ap, ◌∙◌, ◌≡◌, ◌≢◌, arith, inl, inr, Bool-cases, ℕ, true, false, List, [], ◌∷◌, All,
  if◌then◌else◌,
}
use ndp_auto_offload.Text.{Text, codes, text_eq}
use ndp_auto_offload.Faasmspeed.Errors.Grouping.{GroupBy, Chain, members}
use ndp_auto_offload.Faasmspeed.Errors.{text_lt, flatten, error_counts}
use ndp_auto_offload.Faasmspeed.Errors.Counting.{occurrences, reported, error_counts_lem}

text_eq_iff : (s t : Text) → text_eq s t ≡ true → s ≡ t
text_eq_iff [] [] h = refl
text_eq_iff [] (d ∷ t) h = ground arith
text_eq_iff (c ∷ s) [] h = ground arith
text_eq_iff (c ∷ s) (d ∷ t) h =
    let heads : c ≡ d = ground arith in let tails : s ≡ t = text_eq_iff s t (ground arith) in cc

text_eq_refl : (s : Text) → text_eq s s ≡ true
text_eq_refl [] = refl
text_eq_refl (c ∷ s) = ground (arith, text_eq_refl s)

text_ne : (s t : Text) → text_eq s t ≡ false → s ≢ t
text_ne s t h q = let same : text_eq s t ≡ true = rw (sym q) (text_eq_refl s) in cc

unfoldable pub add : Text → List (Text × List Text) → List (Text × List Text)
add e [] = (e, e ∷ []) ∷ []
add e ((k, es) ∷ gs) = if text_eq e k then (k, e ∷ es) ∷ gs else (e, e ∷ []) ∷ (k, es) ∷ gs

unfoldable pub group : List Text → List (Text × List Text)
group [] = []
group (e ∷ es) = add e (group es)

abbrev IsGroup : Text × List Text → Type 0
IsGroup g = (g.1 ≢ []) × All (λ e. e ≡ g.0) g.1

add-members : (e : Text) (gs : List (Text × List Text)) → members (add e gs) ≡ e ∷ members gs
unfolding add
add-members e [] = refl
add-members e ((k, es) ∷ gs) = elim (Bool-cases (text_eq e k)) [
  | inl t ↦ rw t refl
  | inr f ↦ rw f refl
]

add-IsGroup : (e : Text) (gs : List (Text × List Text)) → All IsGroup gs → All IsGroup (add e gs)
unfolding add
add-IsGroup e [] h = ((cc, (refl, tt)), tt)
add-IsGroup e ((k, es) ∷ gs) h = elim (Bool-cases (text_eq e k)) [
  | inl t ↦ rw t ((cc, (text_eq_iff e k t, h.0.1)), h.1)
  | inr f ↦ rw f ((cc, (refl, tt)), h)
]

abbrev Apart : Text × List Text → Text × List Text → Type 0
Apart g h = g.0 ≢ h.0

Chain-rekeyed :
    (k : Text) (es fs : List Text) (gs : List (Text × List Text))
    → Chain Apart ((k, es) ∷ gs)
    → Chain Apart ((k, fs) ∷ gs)
Chain-rekeyed k es fs [] h = tt
Chain-rekeyed k es fs (g ∷ gs) h = h

add-Chain : (e : Text) (gs : List (Text × List Text)) → Chain Apart gs → Chain Apart (add e gs)
unfolding add
add-Chain e [] h = tt
add-Chain e ((k, es) ∷ gs) h = elim (Bool-cases (text_eq e k)) [
  | inl t ↦ rw t (Chain-rekeyed k es (e ∷ es) gs h)
  | inr f ↦ rw f (text_ne e k f, h)
]

pub group-members : (es : List Text) → members (group es) ≡ es
unfolding group
group-members [] = refl
group-members (e ∷ es) = add-members e (group es) ∙ ap (λ l. e ∷ l) (group-members es)

pub group-IsGroup : (es : List Text) → All IsGroup (group es)
unfolding group
group-IsGroup [] = tt
group-IsGroup (e ∷ es) = add-IsGroup e (group es) (group-IsGroup es)

pub group-Chain : (es : List Text) → Chain Apart (group es)
unfolding group
group-Chain [] = tt
group-Chain (e ∷ es) = add-Chain e (group es) (group-Chain es)

instance abbrev pub grouping : GroupBy
grouping = record {
  group_by = group;
  whole = group-members;
  alike = group-IsGroup;
  apart = group-Chain;
}

abbrev three_errors : List (List Text)
three_errors = (codes "timeout" ∷ codes "refused" ∷ []) ∷ (codes "timeout" ∷ []) ∷ []

error_counts_lem_example :
    Chain (λ (g h : ℕ × Text). text_lt g.1 h.1 ≡ true) (error_counts three_errors)
    × (reported (codes "timeout") (error_counts three_errors)
        ≡ occurrences (codes "timeout") (flatten three_errors))
error_counts_lem_example = error_counts_lem three_errors (codes "timeout")
