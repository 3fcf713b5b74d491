-- ===== src/NearMap/Trace/OneLine.antt =====
-- Each line of the log of pin-NearMAP/NearMAP.cpp is read as one line.
use ndp_auto_offload.Base.{ℕ, ◌==◌, ◌≡◌, refl, false, List, [], ◌∷◌, All}
use ndp_auto_offload.Text.{Text, codes, contains}
use ndp_auto_offload.Text.Print.{show_ℕ}
use ndp_auto_offload.Text.Words.{contains-append, show_ℕ-without}
use ndp_auto_offload.Text.Written.{IsLine}
use ndp_auto_offload.NearMap.Access.{AccessType, read, write, read_write}
use ndp_auto_offload.NearMap.Trace.Written.{Section, joined, flags, phase_text, trace_text}

module _ (sep : ℕ) (apart : (b';' == sep) ≡ false)
    (numbers : (n : ℕ) → contains sep (show_ℕ n) ≡ false) where
  joined-without :
      (f : Text) (gs : List Text)
      → All (λ t. contains sep t ≡ false) (f ∷ gs)
      → contains sep (joined f gs) ≡ false
  unfolding contains
  joined-without f [] h = h.0
  joined-without f (g ∷ gs) h =
      contains-append sep f (b';' ∷ joined g gs) h.0 (rw (apart, joined-without g gs h.1) refl)

  phase_text-without :
      (s : Section)
      → contains sep (codes "phase") ≡ false
      → contains sep s.name ≡ false
      → contains sep (phase_text s) ≡ false
  phase_text-without s h k =
      joined-without (codes "phase")
        (show_ℕ s.page_size
          ∷ show_ℕ s.begins
          ∷ show_ℕ s.ends
          ∷ s.name
          ∷ show_ℕ s.instructions
          ∷ show_ℕ s.io_bytes
          ∷ [])
        (
          h,
          (
            numbers s.page_size,
            (
              numbers s.begins,
              (numbers s.ends, (k, (numbers s.instructions, (numbers s.io_bytes, tt)))),
            ),
          ),
        )

  trace_text-without :
      (s : Section) (page : ℕ) (ty : AccessType)
      → contains sep (codes "trace") ≡ false
      → contains sep (flags ty) ≡ false
      → contains sep (trace_text s (page, ty)) ≡ false
  unfolding contains
  trace_text-without s page ty h k =
      joined-without (codes "trace")
        ([] ∷ show_ℕ s.begins ∷ show_ℕ s.ends ∷ show_ℕ page ∷ flags ty ∷ [] ∷ [])
        (h, (refl, (numbers s.begins, (numbers s.ends, (numbers page, (k, (refl, tt)))))))

flags-IsLine : (ty : AccessType) → IsLine (flags ty)
unfolding contains
flags-IsLine read = (refl, refl)
flags-IsLine write = (refl, refl)
flags-IsLine read_write = (refl, refl)

pub phase_text-IsLine : (s : Section) → IsLine s.name → IsLine (phase_text s)
unfolding contains
phase_text-IsLine s h = (
  phase_text-without b'\n' refl (λ n. show_ℕ-without b'\n' n refl) s refl h.0,
  phase_text-without 13 refl (λ n. show_ℕ-without 13 n refl) s refl h.1,
)

pub trace_text-IsLine :
    (s : Section) (page : ℕ) (ty : AccessType) → IsLine (trace_text s (page, ty))
unfolding contains
trace_text-IsLine s page ty =
    let h = flags-IsLine ty in
    (
      trace_text-without b'\n' refl (λ n. show_ℕ-without b'\n' n refl) s page ty refl h.0,
      trace_text-without 13 refl (λ n. show_ℕ-without 13 n refl) s page ty refl h.1,
    )
