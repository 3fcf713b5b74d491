-- ===== src/Statmon/Packet/Fields.antt =====
-- The parts of the packet of `stat_packet` in statmon/src/stats.rs between its commas.
use ndp_auto_offload.Base.{
  ℕ, ◌≡◌, refl, ◌∙◌, ap, sym, false, List, [], ◌∷◌, ◌++◌, All, append_assoc, append-nil,
}
use ndp_auto_offload.Base.{arith}
use ndp_auto_offload.Base.Int.{pos, max_ℤ}
use ndp_auto_offload.Text.{Text, codes, contains, is_empty}
use ndp_auto_offload.Text.Words.{IsOneLine, contains-append}
use ndp_auto_offload.Text.Print.{show_ℤ}
use ndp_auto_offload.Text.Commas.{IsField, split_commas, split_first, split_last}
use ndp_auto_offload.Statmon.Value.{FloatOps, show, valf}
use ndp_auto_offload.Statmon.Stat.{Stat}
use ndp_auto_offload.Statmon.Packet.{
  average, stat_fields, with_commas, pop, write_stats, stat_packet,
}

pop-append : (xs : Text) (y : ℕ) (ys : Text) → pop (xs ++ y ∷ ys) ≡ xs ++ pop (y ∷ ys)
unfolding pop
pop-append [] y ys = refl
pop-append (x ∷ []) y ys = refl
pop-append (x ∷ z ∷ xs) y ys = ap (λ t. x ∷ t) (pop-append (z ∷ xs) y ys)

pop_cons : (c : ℕ) (s : Text) → is_empty s ≡ false → pop (c ∷ s) ≡ c ∷ pop s
unfolding pop
pop_cons c [] h = cc
pop_cons c (d ∷ s) h = refl

with_commas-ne : (f : Text) (fs : List Text) → is_empty (with_commas (f ∷ fs)) ≡ false
unfolding with_commas
with_commas-ne [] fs = refl
with_commas-ne (c ∷ f) fs = refl

split_fields :
    (f : Text) (fs : List Text)
    → All IsField (f ∷ fs)
    → split_commas (pop (with_commas (f ∷ fs))) ≡ f ∷ fs
unfolding with_commas pop
split_fields f [] h =
    let e = pop-append f b',' [] ∙ append-nil f in ap split_commas e ∙ split_last f h.0
split_fields f (g ∷ fs) h =
    let rest = with_commas (g ∷ fs) in
    let e = pop-append f b',' rest ∙ ap (λ t. f ++ t) (pop_cons b',' rest (with_commas-ne g fs)) in
    ap split_commas e ∙ split_first f (pop rest) h.0 ∙ ap (λ l. f ∷ l) (split_fields g fs h.1)

with_commas-append : (fs gs : List Text) → with_commas (fs ++ gs) ≡ with_commas fs ++ with_commas gs
unfolding with_commas
with_commas-append [] gs = refl
with_commas-append (f ∷ fs) gs = rw (with_commas-append fs gs, append_assoc) refl

pub IsOneLine-pop : (s : Text) → IsOneLine s → IsOneLine (pop s)
unfolding contains pop
IsOneLine-pop [] h = refl
IsOneLine-pop (c ∷ []) h = refl
IsOneLine-pop (c ∷ d ∷ s) h = ground (arith, IsOneLine-pop (d ∷ s))

pub IsOneLine-with_commas : (fs : List Text) → All IsOneLine fs → IsOneLine (with_commas fs)
unfolding contains with_commas
IsOneLine-with_commas [] h = refl
IsOneLine-with_commas (f ∷ fs) h =
    contains-append b'\n' f (b',' ∷ with_commas fs) h.0 (IsOneLine-with_commas fs h.1)

-- Each value behind its label.
abbrev pub labelled : Text → List (Text × Text) → List Text
labelled name [] = []
labelled name ((suffix, value) ∷ rest) = (name ++ suffix) ∷ value ∷ labelled name rest

module _ {F : Type 0} ⦃fl : FloatOps F⦄ where
  -- The names and the values of all statistics, in their order.
  unfoldable pub all_fields : Text → List (Stat F) → List Text
  all_fields hp [] = []
  all_fields hp (s ∷ stats) = stat_fields hp s ++ all_fields hp stats

  pub write_stats_lem :
      (hp : Text) (stats : List (Stat F)) → write_stats hp stats ≡ with_commas (all_fields hp stats)
  unfolding write_stats all_fields with_commas
  write_stats_lem hp [] = refl
  write_stats_lem hp (s ∷ stats) =
      ap (λ t. with_commas (stat_fields hp s) ++ t) (write_stats_lem hp stats)
      ∙ sym (with_commas-append (stat_fields hp s) (all_fields hp stats))

  -- The suffix of the label of each value of a statistic, and the text of the value.
  abbrev pub columns : Stat F → List (Text × Text)
  columns s =
      ([], show s.value_now)
      ∷ (codes "_min", show s.value_min)
      ∷ (codes "_max", show s.value_max)
      ∷ (codes "_avg", fl.show (fl.div (valf s.value_sum) (fl.of_int (max_ℤ s.value_cnt (pos 1)))))
      ∷ (codes "_sum", show s.value_sum)
      ∷ (codes "_cnt", show_ℤ s.value_cnt)
      ∷ []

  abbrev pub readings : Text → List (Stat F) → List Text
  readings hp [] = []
  readings hp (s ∷ stats) = labelled (hp ++ s.name) (columns s) ++ readings hp stats

  pub all_fields-readings :
      (hp : Text) (stats : List (Stat F)) → all_fields hp stats ≡ readings hp stats
  unfolding all_fields stat_fields average
  all_fields-readings hp [] = refl
  all_fields-readings hp (s ∷ stats) =
      rw append-nil (ap (λ l. stat_fields hp s ++ l) (all_fields-readings hp stats))

  -- The packet of a table of statistics.
  pub packet_body :
      (hp : Text) (s : Stat F) (stats : List (Stat F))
      → All IsField (all_fields hp (s ∷ stats))
      → All IsOneLine (all_fields hp (s ∷ stats))
      → (body : Text) × (stat_packet hp (s ∷ stats) ≡ body ++ b'\n' ∷ [])
        × IsOneLine body
        × (split_commas body ≡ all_fields hp (s ∷ stats))
  unfolding stat_packet all_fields stat_fields
  packet_body hp s stats h k = (
    pop (write_stats hp (s ∷ stats)),
    refl,
    IsOneLine-pop (write_stats hp (s ∷ stats))
        (rw (write_stats_lem hp (s ∷ stats)) (IsOneLine-with_commas (all_fields hp (s ∷ stats)) k)),
    ap (λ t. split_commas (pop t)) (write_stats_lem hp (s ∷ stats)) ∙ split_fields _ _ h,
  )
