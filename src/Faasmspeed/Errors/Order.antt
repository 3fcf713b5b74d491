-- ===== src/Faasmspeed/Errors/Order.antt =====
-- The sorting of the errors in faasmspeed/src/main.rs.
use ndp_auto_offload.Base.{
  refl, ◌≡◌, ◌≢◌, arith, inl, inr, Bool-cases, ◌==◌, ==_iff, true, false, List, [], ◌∷◌,
}
use ndp_auto_offload.Text.{Text}
use ndp_auto_offload.Faasmspeed.Errors.Grouping.{Chain}
use ndp_auto_offload.Faasmspeed.Errors.{text_lt, insert_text, sort_texts}

text_lt_asym : (s t : Text) → text_lt s t ≡ true → text_lt t s ≡ false
unfolding text_lt
text_lt_asym [] [] h = ground arith
text_lt_asym [] (d ∷ t) h = refl
text_lt_asym (c ∷ s) [] h = ground arith
text_lt_asym (c ∷ s) (d ∷ t) h = ground (arith, text_lt_asym s t)

text_lt_total : (s t : Text) → text_lt s t ≡ false → text_lt t s ≡ false → s ≡ t
unfolding text_lt
text_lt_total [] [] h k = refl
text_lt_total [] (d ∷ t) h k = ground arith
text_lt_total (c ∷ s) [] h k = ground arith
text_lt_total (c ∷ s) (d ∷ t) h k = elim (Bool-cases (c == d)) [
  | inl same ↦
      let heads : c ≡ d = (==_iff c d).0 same in
      let tails : s ≡ t = text_lt_total s t (ground arith) (ground arith) in cc
  | inr other ↦ elim (unequal other) [ ]
]
  where
    unequal : (c == d) ≡ false → ⊥
    unequal other = ground arith

-- Sorted: no text is behind a greater one.
abbrev pub Follows : Text → Text → Type 0
Follows s t = text_lt t s ≡ false

Chain-insert_cons :
    (c e : Text) (ds : List Text)
    → Follows c e
    → Chain Follows (c ∷ ds)
    → Chain Follows (c ∷ insert_text e ds)
unfolding insert_text
Chain-insert_cons c e [] first h = (first, tt)
Chain-insert_cons c e (d ∷ ds) first h = elim (Bool-cases (text_lt d e)) [
  | inl less ↦ rw less (h.0, Chain-insert_cons d e ds (text_lt_asym d e less) h.1)
  | inr more ↦ rw more (first, (more, h.1))
]

Chain-insert : (e : Text) (ds : List Text) → Chain Follows ds → Chain Follows (insert_text e ds)
unfolding insert_text
Chain-insert e [] h = tt
Chain-insert e (d ∷ ds) h = elim (Bool-cases (text_lt d e)) [
  | inl less ↦ rw less (Chain-insert_cons d e ds (text_lt_asym d e less) h)
  | inr more ↦ rw more (more, h)
]

pub Chain-sort : (es : List Text) → Chain Follows (sort_texts es)
unfolding sort_texts
Chain-sort [] = tt
Chain-sort (e ∷ es) = Chain-insert e (sort_texts es) (Chain-sort es)

-- A text that follows another one follows it strictly.
pub text_lt_of : (k l : Text) → Follows k l → k ≢ l → text_lt k l ≡ true
text_lt_of k l h ne = elim (Bool-cases (text_lt k l)) [
  | inl less ↦ less
  | inr more ↦ elim (ne (text_lt_total k l more h)) [ ]
]
