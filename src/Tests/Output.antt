-- ===== src/Tests/Output.antt =====
-- The output of faasmspeed/src/main.rs for one function with two results and an error.
use ndp_auto_offload.Base.{
  ℕ, ◌+◌, ◌*◌, ◌≡◌, refl, List, [], ◌∷◌, map, take, drop, length, some, true, false, ok, arith,
}
use ndp_auto_offload.Base.Int.{pos_part}
use ndp_auto_offload.Base.Words.{release}
use ndp_auto_offload.Text.{Text, codes, contains}
use ndp_auto_offload.Text.Print.{show_ℕ}
use ndp_auto_offload.Text.Commas.{split_commas}
use ndp_auto_offload.Faasmspeed.Report.{Summary}
use ndp_auto_offload.Faasmspeed.Output.{ReportFloats, stats_lines, finish}
use ndp_auto_offload.Faasmspeed.Output.Columns.{read_row, rows, stats_lines-rows}
use ndp_auto_offload.Faasmspeed.Output.Complete.{finish_total}
use ndp_auto_offload.Tests.Errors.{grouping}
use ndp_auto_offload.Tests.Requests.{given, responses, responses-Fits, some_received}

-- Whole numbers in place of floats.
abbrev whole : ReportFloats ℕ
whole = record {
  of_nat = λ n. n;
  of_int = pos_part;
  sqrt = λ n. n;
  div = λ a b. a;
  million = 1_000_000;
  show_fixed = λ k n. show_ℕ n;
}

abbrev latency : Summary
latency = record {
  min = 10;
  q01 = 10;
  q1 = 10;
  med = 30;
  q3 = 30;
  q99 = 30;
  max = 30;
  avg = 20;
  variance = 100;
}

no_comma : contains b',' (show_ℕ 100) ≡ false
unfolding contains show_ℕ
no_comma = refl

latency_field : contains b',' (codes "latency-us") ≡ false
unfolding contains
latency_field = refl

stats_lines-rows_example :
    (map read_row
        (take 8 (stats_lines whole true (codes "Request latency") (codes "latency-us") latency))
      ≡ map some (rows (codes "latency-us") latency))
    × (map split_commas
          (drop 8 (stats_lines whole true (codes "Request latency") (codes "latency-us") latency))
        ≡ (codes "latency-us" ∷ codes "stddev" ∷ show_ℕ 100 ∷ []) ∷ [])
stats_lines-rows_example =
    stats_lines-rows whole (codes "Request latency") (codes "latency-us") latency latency_field
      (omega arith) (omega arith) no_comma

finish_total_example :
    (ls : List Text) × ((finish whole release given 1 3 (codes "m,1" ∷ []) (responses ∷ [])).1
      ≡ ok ls)
    × (length ls ≡ 1 * (40 + 1))
finish_total_example =
    finish_total whole given 1 3 (codes "m,1" ∷ []) (responses ∷ [])
      (record { rates = refl; nums = refl; inputs = omega arith }) refl
      ((some_received, responses-Fits), tt)
