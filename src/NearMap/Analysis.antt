-- ===== src/NearMap/Analysis.antt =====
-- The second half of `analyse_file` of pin-NearMAP/analyse-results/src/main.rs: what is counted of
-- each phase, and the rows of the table.
pub mod Bounds
pub mod Once
pub mod FirstReads
pub mod Columns
use ndp_auto_offload.Base.{
  ℕ, suc, ◌+◌, ◌*◌, Bool, true, false, not, ◌&&◌, ◌++◌, Option, none, some, List, [], ◌∷◌, Outcome,
  ok, ◌>>=◌, if◌then◌else◌,
}
use ndp_auto_offload.Base.Words.{Profile, fit_uint, u64_mod}
use ndp_auto_offload.Text.{Text, codes}
use ndp_auto_offload.Text.Print.{show_ℕ}
use ndp_auto_offload.NearMap.Access.{AccessType, Accesses, TracePhase, is_read, is_write, get}
use ndp_auto_offload.NearMap.Trace.{Parsing, start, read_lines}

-- `all(|p| p.accesses.get(pid).is_none())`
unfoldable pub untouched : ℕ → List TracePhase → Bool
untouched pid [] = true
untouched pid (p ∷ ps) =
    elim (get pid p.accesses) [ none ↦ true | some at ↦ false ] && untouched pid ps

-- `all(|p| p.accesses.get(pid).map(|at| !at.is_read()).unwrap_or(true))`
unfoldable pub unread : ℕ → List TracePhase → Bool
unread pid [] = true
unread pid (p ∷ ps) =
    elim (get pid p.accesses) [ none ↦ true | some at ↦ not (is_read at) ] && unread pid ps

pub record Counts : Type 0 where
  pub read_pages : ℕ
  pub written_pages : ℕ
  pub dead_writes : ℕ
  pub new_reads : ℕ

unfoldable pub zero_counts : Counts
zero_counts = record { read_pages = 0; written_pages = 0; dead_writes = 0; new_reads = 0 }

-- The two `if` blocks of the loop over the accesses. A count stays below the number of pages that
-- a map holds, so it never overflows.
unfoldable pub count_access : List TracePhase → List TracePhase → ℕ × AccessType → Counts → Counts
count_access before after (pid, access) c =
    let c' =
      if is_read access
      then record c {
        read_pages = c.read_pages + 1;
        new_reads = if untouched pid before then c.new_reads + 1 else c.new_reads;
      }
      else c in
    if is_write access
    then record c' {
      written_pages = c'.written_pages + 1;
      dead_writes = if unread pid after then c'.dead_writes + 1 else c'.dead_writes;
    }
    else c'

unfoldable pub count_accesses : List TracePhase → List TracePhase → Accesses → Counts → Counts
count_accesses before after [] c = c
count_accesses before after (a ∷ as_) c =
    count_accesses before after as_ (count_access before after a c)

unfoldable pub count_phase : List TracePhase → TracePhase → List TracePhase → Counts
count_phase before phase after = count_accesses before after phase.accesses zero_counts

-- The heading of the table.
abbrev pub columns : Text
columns =
    codes
      "Trace,Phase,Page size,Read bytes,Written bytes,Dead written bytes,New read bytes,IO Bytes,Instructions"

-- The row of one phase. The products are in u64.
unfoldable pub row : Profile → Text → TracePhase → Counts → Outcome Text
row p path phase c = do
  read_bytes ← fit_uint u64_mod p (c.read_pages * phase.page_size)
  written_bytes ← fit_uint u64_mod p (c.written_pages * phase.page_size)
  dead_bytes ← fit_uint u64_mod p (c.dead_writes * phase.page_size)
  new_bytes ← fit_uint u64_mod p (c.new_reads * phase.page_size)
  ok (
      path
      ++ b','
        ∷ (phase.name
            ++ b','
              ∷ (show_ℕ phase.page_size
                  ++ b','
                    ∷ (show_ℕ read_bytes
                        ++ b','
                          ∷ (show_ℕ written_bytes
                              ++ b','
                                ∷ (show_ℕ dead_bytes
                                    ++ b','
                                      ∷ (show_ℕ new_bytes
                                          ++ b','
                                            ∷ (show_ℕ phase.io_bytes
                                                ++ b','
                                                  ∷ (show_ℕ phase.instructions
                                                      ++ b'\n' ∷ [])))))))))

-- `for (i, phase) in phases.iter().enumerate()`, with `phases[..i]` and `phases[i + 1..]`
unfoldable pub rows : Profile → Text → List TracePhase → List TracePhase → Outcome Text
rows p path before [] = ok []
rows p path before (phase ∷ after) = do
  line ← row p path phase (count_phase before phase after)
  rest ← rows p path (before ++ phase ∷ []) after
  ok (line ++ rest)

-- What `analyse_file` appends to the output.
unfoldable pub analyse_file : Profile → Text → List (Option Text) → Outcome Text
analyse_file p path input = do s ← read_lines input start; rows p path [] s.phases
