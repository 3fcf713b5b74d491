-- ===== src/Tests/NearMap.antt =====
-- The theorems on pin-NearMAP/analyse-results/src/main.rs at concrete logs and phases.
use ndp_auto_offload.Base.{
  ◌≡◌, refl, ◌++◌, List, [], ◌∷◌, map, keep, length, arith, Option, some, ok,
}
use ndp_auto_offload.Text.{Text, codes, lines, starts_with, contains, split_when, strip_prefix}
use ndp_auto_offload.Text.Parse.{parse_u64}
use ndp_auto_offload.Text.Print.{show_ℕ}
use ndp_auto_offload.Base.Words.{debug}
use ndp_auto_offload.Text.Words.{IsOneLine}
use ndp_auto_offload.Text.Commas.{split_commas}
use ndp_auto_offload.NearMap.Analysis.{
  Counts, row, columns, count_phase, count_accesses, count_access, untouched, unread, zero_counts,
}
use ndp_auto_offload.NearMap.Analysis.Columns.{row_columns, row-columns}
use ndp_auto_offload.NearMap.Access.{
  read, write, read_write, try_from_rw, is_read, is_write, get, insert, TracePhase, Accesses, new,
  get-insert,
}
use ndp_auto_offload.NearMap.Trace.{
  Parsing, start, read_lines, read_line, trace_line, phase_line, fields, field, number,
  number_or_zero, insert_last,
}
use ndp_auto_offload.NearMap.Trace.Written.{Section, IsSection, IsOther, log_text, phases_of}
use ndp_auto_offload.NearMap.Trace.ReadBack.{read_lines-log_text}
use ndp_auto_offload.NearMap.Trace.Names.{markers, read_lines-names}
use ndp_auto_offload.NearMap.Analysis.FirstReads.{
  ListsEach, times, first_reads, new_reads_total, new_reads_once,
}
use ndp_auto_offload.NearMap.Analysis.{
  count_phase, count_accesses, count_access, untouched, unread, zero_counts,
}
use ndp_auto_offload.NearMap.Access.{is_read, is_write, get}
use ndp_auto_offload.NearMap.Analysis.Bounds.{Consistent, count_phase-Consistent}

abbrev log : List (Option Text)
log =
    some (codes "phase;4096;0;10;main-start;7;2")
    ∷ some (codes "trace;;0;56962;2190;RW;")
    ∷ some (codes "phase;4096;10;30;exit")
    ∷ []

abbrev log_end : Parsing
log_end = record {
  phases =
      record (new (codes "pre-main") 4096 0 7 2) { accesses = (2190, read_write) ∷ [] }
      ∷ new (codes "main-start") 4096 10 0 0
      ∷ [];
  next_phase = codes "exit";
}

log_read : read_lines log start ≡ ok log_end
unfolding read_lines read_line trace_line phase_line fields field number number_or_zero insert_last
    start parse_u64 insert new try_from_rw starts_with contains split_when strip_prefix
log_read = refl

abbrev three_accesses : Accesses
three_accesses = (1, read) ∷ (2, write) ∷ (3, read_write) ∷ []

abbrev swapped_accesses : Accesses
swapped_accesses = (2, write) ∷ (1, read) ∷ (3, read_write) ∷ []

abbrev setup : TracePhase
setup = record (new (codes "setup") 4096 0 0 0) { accesses = three_accesses }

abbrev body : TracePhase
body = record (new (codes "body") 4096 5 0 0) { accesses = (2, read) ∷ (3, write) ∷ (4, read) ∷ [] }

count_phase-Consistent_example : Consistent 3 (count_phase (setup ∷ []) body [])
count_phase-Consistent_example = count_phase-Consistent (setup ∷ []) [] body

abbrev three_counts : Counts
three_counts = record { read_pages = 2; written_pages = 2; dead_writes = 1; new_reads = 2 }

row-columns_example :
    (line : Text) × (row debug (codes "a.log") setup three_counts ≡ ok (line ++ b'\n' ∷ []))
    × IsOneLine line
    × (split_commas line ≡ row_columns (codes "a.log") setup three_counts)
    × (length (split_commas columns) ≡ 9)
unfolding new
row-columns_example =
    row-columns debug (codes "a.log") setup three_counts (unfold contains in refl)
      (unfold contains in refl) (unfold contains in refl) (unfold contains in refl) (omega arith)
      (omega arith) (omega arith) (omega arith)

get-insert_other : get 3 (insert 2 read three_accesses) ≡ get 3 three_accesses
get-insert_other = get-insert 2 3 read three_accesses

read_lines-names_example :
    map (λ p. p.name) log_end.phases ++ log_end.next_phase ∷ [] ≡ codes "pre-main" ∷ markers log
read_lines-names_example = read_lines-names log log_end log_read

-- Two phases that access the pages 5 and 7, and the second also 9.
abbrev shared_log : List (Option Text)
shared_log =
    some (codes "phase;4096;0;10;work")
    ∷ some (codes "trace;;0;1;5;R;")
    ∷ some (codes "trace;;0;1;7;W;")
    ∷ some (codes "phase;4096;10;30;exit")
    ∷ some (codes "trace;;0;1;7;R;")
    ∷ some (codes "trace;;0;1;5;R;")
    ∷ some (codes "trace;;0;1;9;R;")
    ∷ []

abbrev shared_end : Parsing
shared_end = record {
  phases =
      record (new (codes "pre-main") 4096 0 0 0) { accesses = (5, read) ∷ (7, write) ∷ [] }
      ∷ record (new (codes "work") 4096 10 0 0) {
        accesses = (7, read) ∷ (5, read) ∷ (9, read) ∷ [];
      }
      ∷ [];
  next_phase = codes "exit";
}

shared_read : read_lines shared_log start ≡ ok shared_end
unfolding read_lines read_line trace_line phase_line fields field number number_or_zero insert_last
    start parse_u64 insert new try_from_rw starts_with contains split_when strip_prefix
shared_read = refl

shared_pages : ListsEach (5 ∷ 7 ∷ 9 ∷ []) shared_end.phases
unfolding times new
shared_pages = omega arith

new_reads_once_example :
    new_reads_total [] shared_end.phases
    ≡ length (keep (λ u. first_reads u shared_end.phases) (5 ∷ 7 ∷ 9 ∷ []))
new_reads_once_example =
    new_reads_once shared_log shared_end (5 ∷ 7 ∷ 9 ∷ []) shared_read shared_pages

-- The pages 5 and 9 are the new reads.
two_new_reads : new_reads_total [] shared_end.phases ≡ 2
unfolding new_reads_total count_phase count_accesses count_access untouched zero_counts get is_read
    is_write new unread
two_new_reads = refl

abbrev summary : Text
summary = codes "summary-ro-rw-wo-tot-insn;1;1;0;2"

-- What the tool writes when it instruments the program.
abbrev stub_found : Text
stub_found = codes "Phase stub found and instrumented"

abbrev io_found : Text
io_found = codes "IO stub found and instrumented"

summary-IsOther : IsOther summary
unfolding contains starts_with strip_prefix
summary-IsOther = record { line = (refl, refl); no_trace = refl; no_phase = refl }

stub-IsOther : IsOther stub_found
unfolding contains starts_with strip_prefix
stub-IsOther = record { line = (refl, refl); no_trace = refl; no_phase = refl }

io-IsOther : IsOther io_found
unfolding contains starts_with strip_prefix
io-IsOther = record { line = (refl, refl); no_trace = refl; no_phase = refl }

-- What the tool knows of the two phases of a run.
abbrev first_section : Section
first_section = record {
  name = codes "work";
  page_size = 4096;
  begins = 0;
  ends = 10;
  instructions = 7;
  io_bytes = 2;
  accesses = (5, read) ∷ (7, read_write) ∷ [];
  others = summary ∷ [];
}

abbrev second_section : Section
second_section = record first_section {
  name = codes "exit";
  begins = 10;
  ends = 30;
  accesses = (7, write) ∷ [];
  others = summary ∷ io_found ∷ [];
}

first-IsSection : IsSection first_section
unfolding contains get
first-IsSection = record {
  one_part = refl;
  line = (refl, refl);
  page_size = omega arith;
  begins = omega arith;
  ends = omega arith;
  instructions = omega arith;
  io_bytes = omega arith;
  once = (refl, (refl, tt));
  pages = (omega arith, (omega arith, tt));
  others = (summary-IsOther, tt);
}

second-IsSection : IsSection second_section
unfolding contains get
second-IsSection = record {
  one_part = refl;
  line = (refl, refl);
  page_size = omega arith;
  begins = omega arith;
  ends = omega arith;
  instructions = omega arith;
  io_bytes = omega arith;
  once = (refl, tt);
  pages = (omega arith, tt);
  others = (summary-IsOther, (io-IsOther, tt));
}

written_log :
    log_text (stub_found ∷ []) (first_section ∷ [])
    ≡ codes "Phase stub found and instrumented\nphase;4096;0;10;work;7;2\ntrace;;0;10;5;R;\n"
      ++ codes "trace;;0;10;7;RW;\nsummary-ro-rw-wo-tot-insn;1;1;0;2\n"
unfolding show_ℕ
written_log = refl

read_lines-log_text_example :
    read_lines
      (map some (lines (log_text (stub_found ∷ []) (first_section ∷ second_section ∷ []))))
      start
    ≡ ok (record {
      phases = phases_of (codes "pre-main") (first_section ∷ second_section ∷ []);
      next_phase = codes "exit";
    })
read_lines-log_text_example =
    read_lines-log_text (stub_found ∷ []) (first_section ∷ second_section ∷ []) (stub-IsOther, tt)
      (first-IsSection, (second-IsSection, tt))
