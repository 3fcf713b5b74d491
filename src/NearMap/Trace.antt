-- ===== src/NearMap/Trace.antt =====
-- The first half of `analyse_file` of pin-NearMAP/analyse-results/src/main.rs: the lines of a log
-- become phases.
pub mod Names
pub mod Distinct
pub mod Written
pub mod OneLine
pub mod ReadBack
use mathlib.Core.Option
use ndp_auto_offload.Base.{
  ℕ, ◌==◌, Bool, true, false, ◌++◌, Option, none, some, List, [], ◌∷◌, Outcome, ok, err, panic,
  ◌>>=◌, or_panic, or_err, unwrap_failed, read_failed, get_elem?, if◌then◌else◌,
}
use ndp_auto_offload.Text.{Text, codes, contains, split_when, starts_with}
use ndp_auto_offload.Text.Parse.{parse_u64}
use ndp_auto_offload.NearMap.Access.{AccessType, TracePhase, try_from_rw, insert, new}

-- The variables of the loop.
pub record Parsing : Type 0 where
  pub phases : List TracePhase
  pub next_phase : Text

unfoldable pub start : Parsing
start = record { phases = []; next_phase = codes "pre-main" }

unfoldable pub fields : Text → List Text
fields line = split_when (λ c. c == b';') line

-- `spl.next().unwrap()`, at the place of the field
unfoldable pub field : List Text → ℕ → Outcome Text
field spl i = or_panic unwrap_failed (get_elem? spl i)

-- `.parse().unwrap()`
unfoldable pub number : Text → Outcome ℕ
number s = or_panic unwrap_failed (parse_u64 s)

-- `spl.next().unwrap_or("0").parse().unwrap()`
unfoldable pub number_or_zero : List Text → ℕ → Outcome ℕ
number_or_zero spl i = number (Option.get_or (get_elem? spl i) (codes "0"))

-- `phases.last_mut().unwrap()`, and the insertion into its accesses
unfoldable pub insert_last : ℕ → AccessType → List TracePhase → Option (List TracePhase)
insert_last page ty [] = none
insert_last page ty (p ∷ []) = some (record p { accesses = insert page ty p.accesses } ∷ [])
insert_last page ty (p ∷ q ∷ ps) = Option.map (λ r. p ∷ r) (insert_last page ty (q ∷ ps))

-- trace;;0;56962;2190968395311;RW;
unfoldable pub trace_line : Text → Parsing → Outcome Parsing
trace_line line s = do
  let spl = fields line
  page ← field spl 4
  pageidx ← number page
  flags ← field spl 5
  accessty ← or_panic unwrap_failed (try_from_rw (contains b'R' flags) (contains b'W' flags))
  phases ← or_panic unwrap_failed (insert_last pageidx accessty s.phases)
  ok (record s { phases = phases })

-- phase;0;56962;main-start
unfoldable pub phase_line : Text → Parsing → Outcome Parsing
phase_line line s = do
  let spl = fields line
  f1 ← field spl 1
  page_size ← number f1
  f2 ← field spl 2
  prev_start_time ← number f2
  f3 ← field spl 3
  prev_end_time ← number f3
  name ← field spl 4
  instructions ← number_or_zero spl 5
  io_bytes ← number_or_zero spl 6
  ok (record {
    phases = s.phases ++ new s.next_phase page_size prev_start_time instructions io_bytes ∷ [];
    next_phase = name;
  })

unfoldable pub read_line : Text → Parsing → Outcome Parsing
read_line line s =
    if starts_with (codes "trace;") line
    then trace_line line s
    else if starts_with (codes "phase;") line
    then phase_line line s
    else ok s

-- The loop over the lines of the reader; `none` is a line that it fails to read.
unfoldable pub read_lines : List (Option Text) → Parsing → Outcome Parsing
read_lines [] s = ok s
read_lines (l ∷ ls) s = do line ← or_err read_failed l; s' ← read_line line s; read_lines ls s'
