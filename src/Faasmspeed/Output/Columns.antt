-- ===== src/Faasmspeed/Output/Columns.antt =====
-- How the table that `print_stats` of faasmspeed/src/main.rs prints with `--csv` is read back.
use mathlib.Core.Option
use ndp_auto_offload.Base.{
  ℕ, ◌-◌, ◌<◌, ◌≡◌, refl, ap, ◌∙◌, arith, List, [], ◌∷◌, map, take, drop, Option, none, some, true,
}
use ndp_auto_offload.Base.Words.{u128_mod}
use ndp_auto_offload.Text.{Text, codes, contains}
use ndp_auto_offload.Text.Parse.{parse_number}
use ndp_auto_offload.Text.Print.{show_ℕ}
use ndp_auto_offload.Text.Commas.{IsField, split_commas, split_first, split_last, show_ℕ-IsField}
use ndp_auto_offload.Text.RoundTrip.{parse_number-show_ℕ}
use ndp_auto_offload.Faasmspeed.Report.{Summary}
use ndp_auto_offload.Faasmspeed.Report.Quantiles.{IsOrdered}
use ndp_auto_offload.Faasmspeed.Output.{ReportFloats, csv_line, stats_fields, stats_lines}

-- A line with three parts, of which the last is a number of a u128.
abbrev read_parts : List Text → Option (Text × Text × ℕ)
read_parts (short ∷ field ∷ value ∷ []) =
    Option.map (λ n. (short, field, n)) (parse_number (u128_mod - 1) value)
read_parts parts = none

abbrev pub read_row : Text → Option (Text × Text × ℕ)
read_row line = read_parts (split_commas line)

-- The numbers of a report under their names.
abbrev pub rows : Text → Summary → List (Text × Text × ℕ)
rows short s =
    (short, codes "min", s.min)
    ∷ (short, codes "q1pct", s.q01)
    ∷ (short, codes "q1", s.q1)
    ∷ (short, codes "med", s.med)
    ∷ (short, codes "q3", s.q3)
    ∷ (short, codes "q99pct", s.q99)
    ∷ (short, codes "max", s.max)
    ∷ (short, codes "avg", s.avg)
    ∷ []

csv_line-parts :
    (short field value : Text)
    → IsField short
    → IsField field
    → IsField value
    → split_commas (csv_line short (field, value)) ≡ short ∷ field ∷ value ∷ []
unfolding csv_line
csv_line-parts short field value hs hf hv =
    split_first short _ hs
    ∙ ap (λ l. short ∷ l) (split_first field value hf ∙ ap (λ l. field ∷ l) (split_last value hv))

csv_line-row :
    (short field : Text) (n : ℕ)
    → IsField short
    → IsField field
    → n < u128_mod
    → read_row (csv_line short (field, show_ℕ n)) ≡ some (short, field, n)
csv_line-row short field n hs hf h =
    ap read_parts (csv_line-parts short field (show_ℕ n) hs hf (show_ℕ-IsField n))
    ∙ ap (Option.map (λ n. (short, field, n))) (parse_number-show_ℕ (u128_mod - 1) n (omega arith))

-- Of a report whose numbers are in order and fit a u128, under a name without a comma, and with a
-- standard deviation that is printed without a comma: the first eight lines of the table are read back
-- as the eight numbers under their names, and the last one has the standard deviation.
pub stats_lines-rows :
    {F : Type 0} (fl : ReportFloats F) (variable_name short : Text) (s : Summary)
    → IsField short
    → IsOrdered s
    → s.max < u128_mod
    → IsField (fl.show_fixed 1 (fl.sqrt (fl.of_nat s.variance)))
    → (map read_row (take 8 (stats_lines fl true variable_name short s)) ≡ map some (rows short s))
      × (map split_commas (drop 8 (stats_lines fl true variable_name short s))
          ≡ (short ∷ codes "stddev" ∷ fl.show_fixed 1 (fl.sqrt (fl.of_nat s.variance)) ∷ []) ∷ [])
unfolding stats_lines stats_fields contains
stats_lines-rows fl variable_name short s hs o fits hd =
    let row = λ (field : Text) (n : ℕ) (hf : IsField field) (h : n < u128_mod).
      csv_line-row short field n hs hf h in
    (
      rw
          (
            row (codes "min") s.min refl (omega arith),
            row (codes "q1pct") s.q01 refl (omega arith),
            row (codes "q1") s.q1 refl (omega arith),
            row (codes "med") s.med refl (omega arith),
            row (codes "q3") s.q3 refl (omega arith),
            row (codes "q99pct") s.q99 refl (omega arith),
            row (codes "max") s.max refl (omega arith),
            row (codes "avg") s.avg refl (omega arith),
          )
          refl,
      ap (λ l. l ∷ []) (csv_line-parts short (codes "stddev") _ hs refl hd),
    )
