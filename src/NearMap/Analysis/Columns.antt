-- ===== src/NearMap/Analysis/Columns.antt =====
-- The columns of a row of the table in pin-NearMAP/analyse-results/src/main.rs.
use ndp_auto_offload.Base.{
  refl, sym, ap, length, ◌∙◌, ◌≡◌, arith, ℕ, ◌*◌, ◌<◌, List, [], ◌∷◌, ◌++◌, ok, append_assoc,
}
use ndp_auto_offload.Base.Words.{Profile, fit_uint, u64_mod}
use ndp_auto_offload.Text.{Text, split_when, contains}
use ndp_auto_offload.Text.Words.{IsOneLine, contains-append, show_ℕ-without}
use ndp_auto_offload.Text.Print.{show_ℕ}
use ndp_auto_offload.Text.Commas.{IsField, split_commas, split_first, split_last, show_ℕ-IsField}
use ndp_auto_offload.NearMap.Access.{TracePhase}
use ndp_auto_offload.NearMap.Analysis.{Counts, row, columns}

-- The columns of a phase.
abbrev pub row_columns : Text → TracePhase → Counts → List Text
row_columns path phase c =
    path
    ∷ phase.name
    ∷ show_ℕ phase.page_size
    ∷ show_ℕ (c.read_pages * phase.page_size)
    ∷ show_ℕ (c.written_pages * phase.page_size)
    ∷ show_ℕ (c.dead_writes * phase.page_size)
    ∷ show_ℕ (c.new_reads * phase.page_size)
    ∷ show_ℕ phase.io_bytes
    ∷ show_ℕ phase.instructions
    ∷ []

-- The texts with commas between them.
abbrev pub joined : Text → List Text → Text
joined f [] = f
joined f (g ∷ gs) = f ++ b',' ∷ joined g gs

abbrev pub numbers : List ℕ → List Text
numbers [] = []
numbers (n ∷ ns) = show_ℕ n ∷ numbers ns

split-joined :
    (n : ℕ) (ns : List ℕ) → split_commas (joined (show_ℕ n) (numbers ns)) ≡ show_ℕ n ∷ numbers ns
split-joined n [] = split_last (show_ℕ n) (show_ℕ-IsField n)
split-joined n (m ∷ ns) =
    split_first (show_ℕ n) (joined (show_ℕ m) (numbers ns)) (show_ℕ-IsField n)
    ∙ ap (λ l. show_ℕ n ∷ l) (split-joined m ns)

fit_lem : (p : Profile) (a : ℕ) → a < u64_mod → fit_uint u64_mod p a ≡ ok a
unfolding fit_uint
fit_lem p a h = ground arith

-- The texts with commas between them and a line feed at the end.
ended : Text → List Text → Text
ended f [] = f ++ b'\n' ∷ []
ended f (g ∷ gs) = f ++ b',' ∷ ended g gs

ended_lem : (f : Text) (gs : List Text) → ended f gs ≡ joined f gs ++ b'\n' ∷ []
unfolding ended
ended_lem f [] = refl
ended_lem f (g ∷ gs) =
    ap (λ t. f ++ b',' ∷ t) (ended_lem g gs)
    ∙ sym (append_assoc f (b',' ∷ joined g gs) (b'\n' ∷ []))

numbers_of : TracePhase → Counts → List ℕ
numbers_of phase c =
    c.read_pages * phase.page_size
    ∷ c.written_pages * phase.page_size
    ∷ c.dead_writes * phase.page_size
    ∷ c.new_reads * phase.page_size
    ∷ phase.io_bytes
    ∷ phase.instructions
    ∷ []

joined_line : (f : Text) (ns : List ℕ) → IsOneLine f → IsOneLine (joined f (numbers ns))
unfolding contains
joined_line f [] h = h
joined_line f (n ∷ ns) h =
    contains-append b'\n' f _ h (joined_line (show_ℕ n) ns (show_ℕ-without b'\n' n refl))

-- Of a path and a phase's name without a comma or a line feed, and of counts whose bytes fit a u64, the row of the
-- phase is one line in every build, and its parts between the commas are the path, the name, the
-- page size, the four counts in bytes, and the phase's traffic and instructions: one for each column
-- of the table's heading.
pub row-columns :
    (p : Profile) (path : Text) (phase : TracePhase) (c : Counts)
    → IsField path
    → IsField phase.name
    → IsOneLine path
    → IsOneLine phase.name
    → c.read_pages * phase.page_size < u64_mod
    → c.written_pages * phase.page_size < u64_mod
    → c.dead_writes * phase.page_size < u64_mod
    → c.new_reads * phase.page_size < u64_mod
    → (body : Text) × (row p path phase c ≡ ok (body ++ b'\n' ∷ []))
      × IsOneLine body
      × (split_commas body ≡ row_columns path phase c)
      × (length (split_commas columns) ≡ length (row_columns path phase c))
unfolding row ended numbers_of split_when contains
row-columns p path phase c hp hn lp ln h1 h2 h3 h4 =
    let ns = numbers_of phase c in
    (
      joined path (phase.name ∷ show_ℕ phase.page_size ∷ numbers ns),
      rw
          (
            fit_lem p (c.read_pages * phase.page_size) h1,
            fit_lem p (c.written_pages * phase.page_size) h2,
            fit_lem p (c.dead_writes * phase.page_size) h3,
            fit_lem p (c.new_reads * phase.page_size) h4,
          )
          (ap ok (ended_lem path (phase.name ∷ show_ℕ phase.page_size ∷ numbers ns))),
      contains-append b'\n' path _ lp (joined_line phase.name (phase.page_size ∷ ns) ln),
      split_first path _ hp
          ∙ ap (λ l. path ∷ l)
              (split_first phase.name _ hn
                ∙ ap (λ l. phase.name ∷ l) (split-joined phase.page_size ns)),
      refl,
    )
