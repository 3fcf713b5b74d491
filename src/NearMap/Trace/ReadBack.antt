-- ===== src/NearMap/Trace/ReadBack.antt =====
-- The reading of a whole log of pin-NearMAP/NearMAP.cpp by `analyse_file` of
-- pin-NearMAP/analyse-results/src/main.rs.
use ndp_auto_offload.Base.{
  ℕ, ◌<◌, ◌≡◌, refl, ap, ◌∙◌, ◌==◌, arith, false, Option, none, some, List, [], ◌∷◌, ◌++◌,
  append_assoc, append-nil, map, All, ok,
}
use ndp_auto_offload.Base.Words.{u64_mod}
use ndp_auto_offload.Text.{Text, codes, starts_with, strip_prefix}
use ndp_auto_offload.NearMap.Access.{AccessType, Accesses, TracePhase, new, get, insert}
use ndp_auto_offload.NearMap.Trace.{
  Parsing, start, field, insert_last, trace_line, read_line, read_lines,
}
use ndp_auto_offload.Text.{lines}
use ndp_auto_offload.Text.Written.{IsLine, lines-unlines}
use ndp_auto_offload.Base.{All-append}
use ndp_auto_offload.NearMap.Trace.Distinct.{IsMap}
use ndp_auto_offload.NearMap.Trace.OneLine.{phase_text-IsLine, trace_text-IsLine}
use ndp_auto_offload.NearMap.Trace.Written.{
  Section, IsSection, IsOther, trace_text, section_lines, log_text, phases_of, last_name, flags_lem,
  number-show_ℕ, read_phase, trace_fields,
}

insert_last_lem :
    (page : ℕ) (ty : AccessType) (ps : List TracePhase) (p : TracePhase)
    → insert_last page ty (ps ++ p ∷ [])
      ≡ some (ps ++ record p { accesses = insert page ty p.accesses } ∷ [])
unfolding insert_last
insert_last_lem page ty [] p = refl
insert_last_lem page ty (q ∷ []) p = refl
insert_last_lem page ty (q ∷ r ∷ ps) p = rw (insert_last_lem page ty (r ∷ ps) p) refl

read_trace :
    (s : Section) (page : ℕ) (ty : AccessType) (ps : List TracePhase) (p : TracePhase) (next : Text)
    → page < u64_mod
    → read_line (trace_text s (page, ty)) (record { phases = ps ++ p ∷ []; next_phase = next })
      ≡ ok (record {
        phases = ps ++ record p { accesses = insert page ty p.accesses } ∷ [];
        next_phase = next;
      })
unfolding read_line starts_with strip_prefix trace_line field
read_trace s page ty ps p next h =
    rw (trace_fields s page ty, number-show_ℕ page h, flags_lem ty, insert_last_lem page ty ps p)
      refl

insert_absent :
    (page : ℕ) (ty : AccessType) (m : Accesses)
    → get page m ≡ none
    → insert page ty m ≡ m ++ (page, ty) ∷ []
unfolding insert get
insert_absent page ty [] h = refl
insert_absent page ty ((q, old) ∷ m) h = ground (arith, insert_absent page ty m)

apart_of_absent :
    (q page : ℕ) (ty : AccessType) (m rest : Accesses)
    → get q (m ++ (page, ty) ∷ rest) ≡ none
    → (q == page) ≡ false
unfolding get
apart_of_absent q page ty [] rest h = ground arith
apart_of_absent q page ty ((r, old) ∷ m) rest h = ground (arith, apart_of_absent q page ty m rest)

absent_of-IsMap :
    (page : ℕ) (ty : AccessType) (m rest : Accesses)
    → IsMap (m ++ (page, ty) ∷ rest)
    → get page m ≡ none
unfolding get
absent_of-IsMap page ty [] rest h = refl
absent_of-IsMap page ty ((q, old) ∷ m) rest h =
    rw (apart_of_absent q page ty m rest h.0) (absent_of-IsMap page ty m rest h.1)

read_traces :
    (s : Section) (acc : Accesses) (ps : List TracePhase) (p : TracePhase) (next : Text)
    (rest : List Text)
    → IsMap (p.accesses ++ acc)
    → All (λ a. a.0 < u64_mod) acc
    → read_lines
        (map some (map (trace_text s) acc ++ rest))
        (record { phases = ps ++ p ∷ []; next_phase = next })
      ≡ read_lines (map some rest) (record {
        phases = ps ++ record p { accesses = p.accesses ++ acc } ∷ [];
        next_phase = next;
      })
unfolding read_lines
read_traces s [] ps p next rest h k = rw (append-nil p.accesses) refl
read_traces s ((page, ty) ∷ acc) ps p next rest h k =
    let absent = absent_of-IsMap page ty p.accesses acc h in
    let p' = record p { accesses = p.accesses ++ (page, ty) ∷ [] } in
    let assoc = append_assoc p.accesses ((page, ty) ∷ []) acc in
    rw (read_trace s page ty ps p next k.0, insert_absent page ty p.accesses absent)
      (read_traces s acc ps p' next rest (rw assoc h) k.1
        ∙ ap
            (λ m.
              read_lines (map some rest)
                (record { phases = ps ++ record p { accesses = m } ∷ []; next_phase = next }))
            assoc)

read_other :
    (l : Text) (ls : List (Option Text)) (s : Parsing)
    → IsOther l
    → read_lines (some l ∷ ls) s ≡ read_lines ls s
unfolding read_lines read_line
read_other l ls s h = rw (h.no_trace, h.no_phase) refl

read_others :
    (os ls : List Text) (s : Parsing)
    → All IsOther os
    → read_lines (map some (os ++ ls)) s ≡ read_lines (map some ls) s
read_others [] ls s h = refl
read_others (o ∷ os) ls s h = read_other o _ s h.0 ∙ read_others os ls s h.1

read_sections :
    (ss : List Section) (ps : List TracePhase) (first : Text)
    → All IsSection ss
    → read_lines (map some (section_lines ss)) (record { phases = ps; next_phase = first })
      ≡ ok (record { phases = ps ++ phases_of first ss; next_phase = last_name first ss })
unfolding read_lines new
read_sections [] ps first h = rw (append-nil ps) refl
read_sections (s ∷ ss) ps first h =
    let p = new first s.page_size s.begins s.instructions s.io_bytes in
    let p' = record p { accesses = s.accesses } in
    let next : Parsing = record { phases = ps ++ p' ∷ []; next_phase = s.name } in
    rw (read_phase s ps first h.0) (
      read_traces s s.accesses ps p s.name (s.others ++ section_lines ss) h.0.once h.0.pages
      ∙ read_others s.others (section_lines ss) next h.0.others
      ∙ read_sections ss (ps ++ p' ∷ []) s.name h.1
      ∙ ap (λ l. ok (record { phases = l; next_phase = last_name s.name ss }))
          (append_assoc ps (p' ∷ []) (phases_of s.name ss)))

traces-IsLine : (s : Section) (acc : Accesses) → All IsLine (map (trace_text s) acc)
traces-IsLine s [] = tt
traces-IsLine s ((page, ty) ∷ acc) = (trace_text-IsLine s page ty, traces-IsLine s acc)

others-IsLine : (os : List Text) → All IsOther os → All IsLine os
others-IsLine [] h = tt
others-IsLine (o ∷ os) h = (h.0.line, others-IsLine os h.1)

sections-IsLine : (ss : List Section) → All IsSection ss → All IsLine (section_lines ss)
sections-IsLine [] h = tt
sections-IsLine (s ∷ ss) h = (
  phase_text-IsLine s h.0.line,
  All-append IsLine (map (trace_text s) s.accesses) _ (traces-IsLine s s.accesses)
      (All-append IsLine s.others _ (others-IsLine s.others h.0.others) (sections-IsLine ss h.1)),
)

-- The text of a log as the tool writes it, notes in between included, with fewer than 2 ^ 64 in each of
-- its numbers, no semicolon, line feed or carriage return in the name of a phase, each page of a phase
-- once, and notes and summaries of one line that do not begin like a phase or an access, is read line by
-- line without a panic or an error, and gives the phases of which the tool wrote it: each with the
-- accesses behind its own marker, and the name in the marker before it.
pub read_lines-log_text :
    (notes : List Text) (ss : List Section)
    → All IsOther notes
    → All IsSection ss
    → read_lines (map some (lines (log_text notes ss))) start
      ≡ ok (record {
        phases = phases_of (codes "pre-main") ss;
        next_phase = last_name (codes "pre-main") ss;
      })
unfolding start
read_lines-log_text notes ss h k =
    let whole =
      lines-unlines (notes ++ section_lines ss) (
        All-append IsLine notes (section_lines ss) (others-IsLine notes h)
          (sections-IsLine ss k)) in
    rw whole (read_others notes (section_lines ss) _ h ∙ read_sections ss [] (codes "pre-main") k)
