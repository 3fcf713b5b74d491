-- ===== src/NearMap/Trace/Written.antt =====
-- The log that pin-NearMAP/NearMAP.cpp writes, and how `analyse_file` of
-- pin-NearMAP/analyse-results/src/main.rs reads it.
use ndp_auto_offload.Base.{
  ℕ, ◌-◌, ◌<◌, ◌≡◌, refl, ap, ◌∙◌, arith, false, some, List, [], ◌∷◌, ◌++◌, map, All, ok,
}
use ndp_auto_offload.Base.Words.{u64_mod}
use ndp_auto_offload.Text.{Text, codes, is_empty, contains, starts_with, strip_prefix}
use ndp_auto_offload.Text.Parse.{parse_u64, parse_number}
use ndp_auto_offload.Text.Print.{show_ℕ}
use ndp_auto_offload.Text.RoundTrip.{parse_number-show_ℕ}
use ndp_auto_offload.Text.Words.{show_ℕ-without, show_ℕ-filled, split_when-first, split_when-last}
use ndp_auto_offload.Text.Written.{unlines, IsLine}
use ndp_auto_offload.NearMap.Access.{
  AccessType, read, write, read_write, Accesses, TracePhase, new, try_from_rw,
}
use ndp_auto_offload.NearMap.Trace.{fields, field, number, number_or_zero, phase_line, read_line}
use ndp_auto_offload.NearMap.Trace.Distinct.{IsMap}

abbrev IsPart : Text → Type 0
IsPart t = contains b';' t ≡ false

-- Parts with semicolons between them.
abbrev pub joined : Text → List Text → Text
joined f [] = f
joined f (g ∷ gs) = f ++ b';' ∷ joined g gs

-- What the tool knows at the end of a phase: `prevTime`, `currTime`, the name of the phase that begins,
-- and the pages accessed, each once; and the lines that it writes from then on till the next phase ends,
-- which are the summary of the phase, and notes on the stubs that it finds and instruments.
pub record Section : Type 0 where
  pub name : Text
  pub page_size : ℕ
  pub begins : ℕ
  pub ends : ℕ
  pub instructions : ℕ
  pub io_bytes : ℕ
  pub accesses : Accesses
  pub others : List Text

abbrev pub flags : AccessType → Text
flags read = codes "R"
flags write = codes "W"
flags read_write = codes "RW"

abbrev pub phase_text : Section → Text
phase_text s = joined (codes "phase") (
    show_ℕ s.page_size
    ∷ show_ℕ s.begins
    ∷ show_ℕ s.ends
    ∷ s.name
    ∷ show_ℕ s.instructions
    ∷ show_ℕ s.io_bytes
    ∷ [])

abbrev pub trace_text : Section → ℕ × AccessType → Text
trace_text s (page, ty) =
    joined (codes "trace") ([] ∷ show_ℕ s.begins ∷ show_ℕ s.ends ∷ show_ℕ page ∷ flags ty ∷ [] ∷ [])

-- The lines of the ends of phases.
abbrev pub section_lines : List Section → List Text
section_lines [] = []
section_lines (s ∷ ss) =
    phase_text s ∷ (map (trace_text s) s.accesses ++ (s.others ++ section_lines ss))

-- The text of a log: notes, and the ends of the phases.
abbrev pub log_text : List Text → List Section → Text
log_text notes ss = unlines (notes ++ section_lines ss)

-- A line that is neither a phase nor an access.
pub record IsOther (l : Text) : Type 0 where
  pub line : IsLine l
  pub no_trace : starts_with (codes "trace;") l ≡ false
  pub no_phase : starts_with (codes "phase;") l ≡ false

pub record IsSection (s : Section) : Type 0 where
  pub one_part : contains b';' s.name ≡ false
  pub line : IsLine s.name
  pub page_size : s.page_size < u64_mod
  pub begins : s.begins < u64_mod
  pub ends : s.ends < u64_mod
  pub instructions : s.instructions < u64_mod
  pub io_bytes : s.io_bytes < u64_mod
  pub once : IsMap s.accesses
  pub pages : All (λ a. a.0 < u64_mod) s.accesses
  pub others : All IsOther s.others

-- The phases of a log, whose first one has the name `first`.
abbrev pub phases_of : Text → List Section → List TracePhase
phases_of first [] = []
phases_of first (s ∷ ss) =
    record (new first s.page_size s.begins s.instructions s.io_bytes) { accesses = s.accesses }
    ∷ phases_of s.name ss

abbrev pub last_name : Text → List Section → Text
last_name first [] = first
last_name first (s ∷ ss) = last_name s.name ss

fields-joined : (f : Text) (gs : List Text) → All IsPart (f ∷ gs) → fields (joined f gs) ≡ f ∷ gs
unfolding fields
fields-joined f [] h = split_when-last b';' f h.0
fields-joined f (g ∷ gs) h =
    split_when-first b';' f (joined g gs) h.0 ∙ ap (λ l. f ∷ l) (fields-joined g gs h.1)

no_plus :
    (t : Text)
    → is_empty t ≡ false
    → contains b'+' t ≡ false
    → parse_u64 t ≡ parse_number (u64_mod - 1) t
unfolding parse_u64 contains
no_plus [] h k = ground arith
no_plus (c ∷ t) h k = ground arith

pub number-show_ℕ : (n : ℕ) → n < u64_mod → number (show_ℕ n) ≡ ok n
unfolding number
number-show_ℕ n h =
    rw
      (
        no_plus (show_ℕ n) (show_ℕ-filled n) (show_ℕ-without b'+' n refl),
        parse_number-show_ℕ (u64_mod - 1) n (omega arith),
      )
      refl

plain : (n : ℕ) → IsPart (show_ℕ n)
plain n = show_ℕ-without b';' n refl

phase_fields :
    (s : Section)
    → IsSection s
    → fields (phase_text s)
      ≡ codes "phase"
        ∷ show_ℕ s.page_size
        ∷ show_ℕ s.begins
        ∷ show_ℕ s.ends
        ∷ s.name
        ∷ show_ℕ s.instructions
        ∷ show_ℕ s.io_bytes
        ∷ []
unfolding contains
phase_fields s h = fields-joined (codes "phase") _ (
  refl,
  (
    plain s.page_size,
    (plain s.begins, (plain s.ends, (h.one_part, (plain s.instructions, (plain s.io_bytes, tt))))),
  ),
)

flags-IsPart : (ty : AccessType) → IsPart (flags ty)
unfolding contains
flags-IsPart read = refl
flags-IsPart write = refl
flags-IsPart read_write = refl

pub flags_lem :
    (ty : AccessType) → try_from_rw (contains b'R' (flags ty)) (contains b'W' (flags ty)) ≡ some ty
unfolding contains try_from_rw
flags_lem read = refl
flags_lem write = refl
flags_lem read_write = refl

pub read_phase :
    (s : Section) (ps : List TracePhase) (first : Text)
    → IsSection s
    → read_line (phase_text s) (record { phases = ps; next_phase = first })
      ≡ ok (record {
        phases = ps ++ new first s.page_size s.begins s.instructions s.io_bytes ∷ [];
        next_phase = s.name;
      })
unfolding read_line starts_with strip_prefix phase_line field number_or_zero
read_phase s ps first h =
    rw
      (
        phase_fields s h,
        number-show_ℕ s.page_size h.page_size,
        number-show_ℕ s.begins h.begins,
        number-show_ℕ s.ends h.ends,
        number-show_ℕ s.instructions h.instructions,
        number-show_ℕ s.io_bytes h.io_bytes,
      )
      refl

pub trace_fields :
    (s : Section) (page : ℕ) (ty : AccessType)
    → fields (trace_text s (page, ty))
      ≡ codes "trace" ∷ [] ∷ show_ℕ s.begins ∷ show_ℕ s.ends ∷ show_ℕ page ∷ flags ty ∷ [] ∷ []
unfolding contains
trace_fields s page ty =
    fields-joined (codes "trace") _
      (refl, (refl, (plain s.begins, (plain s.ends, (plain page, (flags-IsPart ty, (refl, tt)))))))
