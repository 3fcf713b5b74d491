-- ===== src/Statmon/Packet/Plain.antt =====
-- When the packet of `stat_packet` in statmon/src/stats.rs is one line of fields without a comma.
use ndp_auto_offload.Base.{suc, refl, ℕ, false, ◌≡◌, ◌∙◌, List, [], ◌∷◌, ◌++◌, All, All-append}
use ndp_auto_offload.Base.Int.{ℤ, pos, negsuc}
use ndp_auto_offload.Text.{Text, codes, contains}
use ndp_auto_offload.Text.Words.{IsOneLine, contains-append, show_ℕ-without}
use ndp_auto_offload.Text.Commas.{IsField, split_commas}
use ndp_auto_offload.Text.Print.{show_ℤ}
use ndp_auto_offload.Statmon.Value.{FloatOps, StatValue, float, int, show}
use ndp_auto_offload.Statmon.Stat.{Stat}
use ndp_auto_offload.Statmon.Packet.{stat_fields, stat_packet}
use ndp_auto_offload.Statmon.Packet.Fields.{all_fields, readings, all_fields-readings, packet_body}

-- A text without a comma and on one line.
abbrev pub IsPlain : Text → Type 0
IsPlain t = IsField t × IsOneLine t

-- A character that is in no printed number and in no suffix of a label.
record IsSeparator (sep : ℕ) : Type 0 where
  pub number : (z : ℤ) → contains sep (show_ℤ z) ≡ false
  pub low : contains sep (codes "_min") ≡ false
  pub high : contains sep (codes "_max") ≡ false
  pub avg : contains sep (codes "_avg") ≡ false
  pub sum : contains sep (codes "_sum") ≡ false
  pub cnt : contains sep (codes "_cnt") ≡ false

comma-number : (z : ℤ) → contains b',' (show_ℤ z) ≡ false
unfolding show_ℤ contains
comma-number (pos n) = show_ℕ-without b',' n refl
comma-number (negsuc n) = show_ℕ-without b',' (suc n) refl

line_feed-number : (z : ℤ) → contains b'\n' (show_ℤ z) ≡ false
unfolding show_ℤ contains
line_feed-number (pos n) = show_ℕ-without b'\n' n refl
line_feed-number (negsuc n) = show_ℕ-without b'\n' (suc n) refl

comma-IsSeparator : IsSeparator b','
unfolding contains
comma-IsSeparator = record {
  number = comma-number;
  low = refl;
  high = refl;
  avg = refl;
  sum = refl;
  cnt = refl;
}

line_feed-IsSeparator : IsSeparator b'\n'
unfolding contains
line_feed-IsSeparator = record {
  number = line_feed-number;
  low = refl;
  high = refl;
  avg = refl;
  sum = refl;
  cnt = refl;
}

module _ {F : Type 0} ⦃fl : FloatOps F⦄ (sep : ℕ) (ok : IsSeparator sep)
    (plain : (x : F) → contains sep (fl.show x) ≡ false) where
  show-without : (v : StatValue F) → contains sep (show v) ≡ false
  unfolding show
  show-without (float x) = plain x
  show-without (int z) = ok.number z

  stat_fields-without :
      (hp : Text) (s : Stat F)
      → contains sep hp ≡ false
      → contains sep s.name ≡ false
      → All (λ t. contains sep t ≡ false) (stat_fields hp s)
  unfolding stat_fields
  stat_fields-without hp s h k =
      let n = contains-append sep hp s.name h k in
      let label = λ (suffix : Text) (g : contains sep suffix ≡ false).
        contains-append sep (hp ++ s.name) suffix n g in
      (
        n,
        (
          show-without s.value_now,
          (
            label (codes "_min") ok.low,
            (
              show-without s.value_min,
              (
                label (codes "_max") ok.high,
                (
                  show-without s.value_max,
                  (
                    label (codes "_avg") ok.avg,
                    (
                      plain _,
                      (
                        label (codes "_sum") ok.sum,
                        (
                          show-without s.value_sum,
                          (label (codes "_cnt") ok.cnt, (ok.number s.value_cnt, tt)),
                        ),
                      ),
                    ),
                  ),
                ),
              ),
            ),
          ),
        ),
      )

  all_fields-without :
      (hp : Text) (stats : List (Stat F))
      → contains sep hp ≡ false
      → All (λ s. contains sep s.name ≡ false) stats
      → All (λ t. contains sep t ≡ false) (all_fields hp stats)
  unfolding all_fields
  all_fields-without hp [] h k = tt
  all_fields-without hp (s ∷ stats) h k =
      All-append (λ t. contains sep t ≡ false) (stat_fields hp s) (all_fields hp stats)
        (stat_fields-without hp s h k.0) (all_fields-without hp stats h k.1)

module _ {F : Type 0} where
  no_commas :
      (stats : List (Stat F)) → All (λ s. IsPlain s.name) stats → All (λ s. IsField s.name) stats
  no_commas [] h = tt
  no_commas (s ∷ stats) h = (h.0.0, no_commas stats h.1)

  no_line_feeds :
      (stats : List (Stat F)) → All (λ s. IsPlain s.name) stats → All (λ s. IsOneLine s.name) stats
  no_line_feeds [] h = tt
  no_line_feeds (s ∷ stats) h = (h.0.1, no_line_feeds stats h.1)

module _ {F : Type 0} ⦃fl : FloatOps F⦄ where
  pub plain_body :
      (hp : Text) (s : Stat F) (stats : List (Stat F))
      → IsPlain hp
      → All (λ z. IsPlain z.name) (s ∷ stats)
      → ((x : F) → IsPlain (fl.show x))
      → (body : Text) × (stat_packet hp (s ∷ stats) ≡ body ++ b'\n' ∷ [])
        × IsOneLine body
        × (split_commas body ≡ all_fields hp (s ∷ stats))
  plain_body hp s stats h k plain =
      packet_body hp s stats
        (all_fields-without b',' comma-IsSeparator (λ x. (plain x).0) hp (s ∷ stats) h.0
          (no_commas (s ∷ stats) k))
        (all_fields-without b'\n' line_feed-IsSeparator (λ x. (plain x).1) hp (s ∷ stats) h.1
          (no_line_feeds (s ∷ stats) k))

  -- If neither the prefix of the host nor the name of a statistic nor the text of a float has a comma
  -- or a line feed, the packet is one line, and its parts between the commas are for each statistic in
  -- turn the label and the text of its present value, its least and greatest value, its average, its
  -- sum and its number of values: the label is the prefix, the name and the suffix of the value.
  pub stat_packet-readings :
      (hp : Text) (s : Stat F) (stats : List (Stat F))
      → IsPlain hp
      → All (λ z. IsPlain z.name) (s ∷ stats)
      → ((x : F) → IsPlain (fl.show x))
      → (body : Text) × (stat_packet hp (s ∷ stats) ≡ body ++ b'\n' ∷ [])
        × IsOneLine body
        × (split_commas body ≡ readings hp (s ∷ stats))
  stat_packet-readings hp s stats h k plain =
      let (body, e, line, parts) = plain_body hp s stats h k plain in
      (body, e, line, parts ∙ all_fields-readings hp (s ∷ stats))
