-- ===== src/Faasmspeed/Output/Complete.antt =====
-- How much `async_main` of faasmspeed/src/main.rs prints of each function.
use mathlib.Core.Path.{subst}
use ndp_auto_offload.Base.{
  Outcome, ℕ, zero, suc, ◌+◌, ◌*◌, ◌<◌, ◌≤◌, ◌≡◌, refl, sym, ◌∙◌, ⊤, or_panic, out_of_bounds, Gives,
  gives, Gives-bind, Gives-value, arith, Bool, true, false, List, [], ◌∷◌, ◌++◌, All, length,
  length-append, length-map, get_elem?, ok, if◌then◌else◌,
}
use ndp_auto_offload.Base.Words.{release}
use ndp_auto_offload.Text.{Text, codes, trim}
use ndp_auto_offload.Faasmspeed.Options.{Options}
use ndp_auto_offload.Faasmspeed.Errors.Grouping.{GroupBy}
use ndp_auto_offload.Faasmspeed.Report.{Summary}
use ndp_auto_offload.Faasmspeed.Results.{Response, divide}
use ndp_auto_offload.Faasmspeed.FunctionReport.{function_report}
use ndp_auto_offload.Faasmspeed.FunctionReport.Ordered.{Fits, function_report-IsOrdered}
use ndp_auto_offload.Faasmspeed.Output.{
  ReportFloats, stats_fields, stats_text, stats_lines, options_line, heading, function_lines,
  all_lines, finish,
}

-- Of some options: as many entries for each function, and an input.
pub record HasEntries {F : Type 0} (opts : Options F) : Type 0 where
  pub rates : length opts.requests_per_second ≡ length opts.functions
  pub nums : length opts.offload_frac_num ≡ length opts.functions
  pub inputs : 0 < length opts.input_data

-- A function of which at least one request ended well, with results that fit u128.
abbrev pub IsReportable : List Response → Type 0
IsReportable rs = (0 < length (divide rs ([], [])).0) × Fits (divide rs ([], [])).0

-- Lines for each function, beside those of the monitoring hosts.
abbrev pub lines_each : Bool → ℕ
lines_each csv = if csv then 40 else 11

elem-Gives :
    {A : Type 0} (xs : List A) (i : ℕ)
    → i < length xs
    → Gives (λ _. ⊤) (or_panic out_of_bounds (get_elem? xs i))
elem-Gives [] i h = elim h [ ]
elem-Gives (x ∷ xs) zero h = gives x tt
elem-Gives (x ∷ xs) (suc i) h = elem-Gives xs i (omega arith)

report-Gives : (rs : List Response) → IsReportable rs → Gives (λ _. ⊤) (function_report release rs)
report-Gives rs good =
    let (r, made, _, _, _, _, _) = function_report-IsOrdered rs good.0 good.1 in
    subst (Gives (λ _. ⊤)) (sym made) (gives r tt)

if-Gives :
    (csv : Bool) (x y : Outcome (List Text)) (n : ℕ)
    → Gives (λ ls. length ls ≡ 3 + n) x
    → Gives (λ ls. length ls ≡ 2 + n) y
    → Gives (λ ls. length ls ≡ (if csv then 3 else 2) + n) (if csv then x else y)
if-Gives true x y n h k = h
if-Gives false x y n h k = k

length-pieces :
    (a b c d e : List Text) (line : Text)
    → length (a ++ b ++ line ∷ (c ++ d ++ e))
      ≡ length a + length b + 1 + length c + length d + length e
length-pieces a b c d e line = omega (
  arith,
  length-append (a ++ b) (line ∷ (c ++ d ++ e)),
  length-append a b,
  length-append (c ++ d) e,
  length-append c d,
)

pieces_sum :
    (csv : Bool) (n a b c d e : ℕ)
    → a ≡ (if csv then 3 else 2) + n
    → b ≡ (if csv then 9 else 2)
    → c ≡ (if csv then 9 else 2)
    → d ≡ (if csv then 9 else 2)
    → e ≡ (if csv then 9 else 2)
    → a + b + 1 + c + d + e ≡ lines_each csv + n
pieces_sum true n a b c d e ha hb hc hd he = omega arith
pieces_sum false n a b c d e ha hb hc hd he = omega arith

module _ {F : Type 0} (fl : ReportFloats F) where
  length-stats_lines :
      (csv : Bool) (variable_name short : Text) (s : Summary)
      → length (stats_lines fl csv variable_name short s) ≡ (if csv then 9 else 2)
  unfolding stats_lines stats_fields stats_text
  length-stats_lines true variable_name short s = refl
  length-stats_lines false variable_name short s = refl

  options_line-Gives :
      (opts : Options F) (fidx ndp total : ℕ) (function : Text)
      → HasEntries opts
      → fidx < length opts.functions
      → Gives (λ _. ⊤) (options_line fl opts fidx function ndp total)
  unfolding options_line
  options_line-Gives opts fidx ndp total function h k =
      Gives-bind (elem-Gives opts.offload_frac_num fidx (omega (arith, h.nums))) λ _ _.
        Gives-bind (elem-Gives opts.offload_frac_num 0 (omega (arith, h.nums))) λ _ _.
          Gives-bind (elem-Gives opts.requests_per_second fidx (omega (arith, h.rates))) λ _ _.
            Gives-bind (elem-Gives opts.requests_per_second 0 (omega (arith, h.rates)))
              λ _ _. Gives-bind (elem-Gives opts.input_data 0 h.inputs) λ _ _. gives _ tt

  heading-Gives :
      (opts : Options F) (fidx ndp total : ℕ) (function : Text) (monitoring : List Text)
      (errors results : ℕ)
      → HasEntries opts
      → fidx < length opts.functions
      → Gives
          (λ ls. length ls ≡ (if opts.csv then 3 else 2) + length monitoring)
          (heading fl opts fidx function ndp total monitoring errors results)
  unfolding heading
  heading-Gives opts fidx ndp total function monitoring errors results h k =
      if-Gives opts.csv _ _ (length monitoring)
        (Gives-bind (options_line-Gives opts fidx ndp total function h k) λ line _.
          gives _ (omega (arith, length-map (λ (m : Text). codes "monitor," ++ trim m) monitoring)))
        (gives _ (
          omega
            (arith, length-map (λ (m : Text). codes "Monitoring result: " ++ trim m) monitoring)))

  function_lines-Gives :
      (opts : Options F) (fidx ndp total : ℕ) (monitoring : List Text) (rs : List Response)
      → HasEntries opts
      → fidx < length opts.functions
      → IsReportable rs
      → Gives
          (λ ls. length ls ≡ lines_each opts.csv + length monitoring)
          (function_lines fl release opts ndp total monitoring fidx rs)
  unfolding function_lines
  function_lines-Gives opts fidx ndp total monitoring rs h k good =
      let d = divide rs ([], []) in
      Gives-bind (elem-Gives opts.functions fidx k) λ function _.
        Gives-bind
          (heading-Gives opts fidx ndp total function monitoring (length d.1) (length d.0) h k)
          λ head long. Gives-bind (report-Gives rs good) λ r _. gives _ (
            length-pieces head _ _ _ _ _
            ∙ pieces_sum opts.csv (length monitoring) _ _ _ _ _ long
                (length-stats_lines opts.csv _ _ r.intervals)
                (length-stats_lines opts.csv _ _ r.latency)
                (length-stats_lines opts.csv _ _ r.status)
                (length-stats_lines opts.csv _ _ r.bytes))

  all_lines-Gives :
      (opts : Options F) (ndp total : ℕ) (monitoring : List Text) (fidx : ℕ)
      (functions : List (List Response))
      → HasEntries opts
      → fidx + length functions ≤ length opts.functions
      → All IsReportable functions
      → Gives
          (λ ls. length ls ≡ length functions * (lines_each opts.csv + length monitoring))
          (all_lines fl release opts ndp total monitoring fidx functions)
  unfolding all_lines
  all_lines-Gives opts ndp total monitoring fidx [] h k good = gives [] (omega arith)
  all_lines-Gives opts ndp total monitoring fidx (rs ∷ rest) h k good =
      Gives-bind (function_lines-Gives opts fidx ndp total monitoring rs h (omega arith) good.0)
        λ here e.
          Gives-bind
            (all_lines-Gives opts ndp total monitoring (suc fidx) rest h (omega arith) good.1)
            λ later e'. gives _ (length-append here later ∙ grind arith)

  -- In a release build, for options that have a rate and a numerator for each function, and an input:
  -- if of each function at least one request ended well, with results that fit u128, the whole output
  -- is made, and it has 40 lines for each function in the format `--csv` and 11 else, and besides one
  -- for each monitoring host.
  pub finish_total :
      ⦃itertools : GroupBy⦄ (opts : Options F) (ndp total : ℕ) (monitoring : List Text)
      (functions : List (List Response))
      → HasEntries opts
      → length functions ≡ length opts.functions
      → All IsReportable functions
      → (ls : List Text) × ((finish fl release opts ndp total monitoring functions).1 ≡ ok ls)
        × (length ls ≡ length functions * (lines_each opts.csv + length monitoring))
  unfolding finish
  finish_total opts ndp total monitoring functions h k good =
      Gives-value (all_lines-Gives opts ndp total monitoring 0 functions h (omega arith) good)
