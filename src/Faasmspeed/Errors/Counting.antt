-- ===== src/Faasmspeed/Errors/Counting.antt =====
-- The counts of the errors that faasmspeed/src/main.rs prints.
use ndp_auto_offload.Base.{
  refl, sym, ap, ◌∙◌, ◌≡◌, ◌≢◌, arith, ℕ, ◌+◌, true, List, [], ◌∷◌, ◌++◌, map, length,
  if◌then◌else◌, All,
}
use mathlib.Core.Path.{subst}
use ndp_auto_offload.Text.{Text, text_eq}
use ndp_auto_offload.Faasmspeed.Errors.Grouping.{GroupBy, Chain, members}
use ndp_auto_offload.Faasmspeed.Errors.Order.{Follows, Chain-sort, text_lt_of}
use ndp_auto_offload.Faasmspeed.Errors.{text_lt, insert_text, sort_texts, flatten, error_counts}

-- How often a text occurs, and how often the printed lines say so.
unfoldable pub occurrences : Text → List Text → ℕ
occurrences e [] = 0
occurrences e (d ∷ ds) = (if text_eq d e then 1 else 0) + occurrences e ds

unfoldable pub reported : Text → List (ℕ × Text) → ℕ
reported e [] = 0
reported e ((n, d) ∷ ls) = (if text_eq d e then n else 0) + reported e ls

occurrences-append :
    (e : Text) (xs ys : List Text) → occurrences e (xs ++ ys) ≡ occurrences e xs + occurrences e ys
unfolding occurrences
occurrences-append e [] ys = omega arith
occurrences-append e (x ∷ xs) ys = omega (arith, occurrences-append e xs ys)

occurrences-insert :
    (e d : Text) (ds : List Text) → occurrences e (insert_text d ds) ≡ occurrences e (d ∷ ds)
unfolding occurrences insert_text
occurrences-insert e d [] = refl
occurrences-insert e d (c ∷ cs) = ground (arith, occurrences-insert e d cs)

occurrences-sort : (e : Text) (ds : List Text) → occurrences e (sort_texts ds) ≡ occurrences e ds
unfolding occurrences sort_texts
occurrences-sort e [] = refl
occurrences-sort e (d ∷ ds) =
    omega (arith, occurrences-insert e d (sort_texts ds), occurrences-sort e ds)

-- The elements of a group are its key.
occurrences-alike :
    (e key : Text) (es : List Text)
    → All (λ d. d ≡ key) es
    → occurrences e es ≡ (if text_eq key e then length es else 0)
unfolding occurrences
occurrences-alike e key [] h = ground arith
occurrences-alike e key (d ∷ ds) h = rw h.0 (ground (arith, occurrences-alike e key ds h.1))

reported-groups :
    (e : Text) (gs : List (Text × List Text))
    → All (λ g. (g.1 ≢ []) × All (λ e. e ≡ g.0) g.1) gs
    → reported e (map (λ g. (length g.1, g.0)) gs) ≡ occurrences e (members gs)
unfolding reported occurrences
reported-groups e [] h = refl
reported-groups e ((key, es) ∷ gs) h = omega (
  arith,
  occurrences-alike e key es h.0.1,
  occurrences-append e es (members gs),
  reported-groups e gs h.1,
)

Chain-append_rest : (es rest : List Text) → Chain Follows (es ++ rest) → Chain Follows rest
Chain-append_rest [] rest h = h
Chain-append_rest (e ∷ []) [] h = tt
Chain-append_rest (e ∷ []) (f ∷ fs) h = h.1
Chain-append_rest (e ∷ d ∷ es) rest h = Chain-append_rest (d ∷ es) rest h.1

-- Two groups that follow each other.
border :
    (k l e f : Text) (es fs : List Text)
    → All (λ x. x ≡ k) (e ∷ es)
    → f ≡ l
    → Chain Follows ((e ∷ es) ++ f ∷ fs)
    → Follows k l
border k l e f [] fs all g h = subst (λ a. Follows a l) all.0 (subst (λ b. Follows e b) g h.0)
border k l e f (d ∷ es) fs all g h = border k l d f es fs all.1 g h.1

IsIncreasing-groups :
    (gs : List (Text × List Text))
    → All (λ g. (g.1 ≢ []) × All (λ e. e ≡ g.0) g.1) gs
    → Chain (λ g h. g.0 ≢ h.0) gs
    → Chain Follows (members gs)
    → Chain (λ (g h : ℕ × Text). text_lt g.1 h.1 ≡ true) (map (λ g. (length g.1, g.0)) gs)
IsIncreasing-groups [] alike apart h = tt
IsIncreasing-groups (g ∷ []) alike apart h = tt
IsIncreasing-groups ((k, []) ∷ gs) alike apart h = elim (alike.0.0 refl) [ ]
IsIncreasing-groups ((k, e ∷ es) ∷ (l, []) ∷ gs) alike apart h = elim (alike.1.0.0 refl) [ ]
IsIncreasing-groups ((k, e ∷ es) ∷ (l, f ∷ fs) ∷ gs) alike apart h = (
  text_lt_of k l (border k l e f es _ alike.0.1 alike.1.0.1.0 h) apart.0,
  IsIncreasing-groups ((l, f ∷ fs) ∷ gs) alike.1 apart.1 (Chain-append_rest (e ∷ es) _ h),
)

-- Every error text is printed on one line, with the number of its errors of all functions, and the
-- lines stand in the order of the texts.
pub error_counts_lem :
    ⦃itertools : GroupBy⦄ (errors : List (List Text)) (e : Text)
    → Chain (λ (g h : ℕ × Text). text_lt g.1 h.1 ≡ true) (error_counts errors)
      × (reported e (error_counts errors) ≡ occurrences e (flatten errors))
unfolding error_counts
error_counts_lem ⦃itertools⦄ errors e =
    let sorted = sort_texts (flatten errors) in
    (
      IsIncreasing-groups _ (itertools.alike sorted) (itertools.apart sorted)
          (subst (Chain Follows) (sym (itertools.whole sorted)) (Chain-sort (flatten errors))),
      reported-groups e _ (itertools.alike sorted)
          ∙ ap (occurrences e) (itertools.whole sorted)
          ∙ occurrences-sort e (flatten errors),
    )
