-- ===== src/NearMap/Analysis/FirstReads.antt =====
-- The new reads of a whole file in pin-NearMAP/analyse-results/src/main.rs: each page counts at most
-- once, in the first phase that accesses it.
use ndp_auto_offload.Base.{
  ℕ, ◌+◌, ◌≡◌, refl, sym, ◌∙◌, Bool, true, false, ◌==◌, ◌&&◌, ==_iff, Bool-cases, Option-cases, inl,
  inr, arith, List, [], ◌∷◌, ◌++◌, All, length, keep, Option, none, some, ok, if◌then◌else◌,
}
use ndp_auto_offload.Text.{Text}
use ndp_auto_offload.NearMap.Access.{AccessType, Accesses, TracePhase, get, is_read}
use ndp_auto_offload.NearMap.Trace.{Parsing, start, read_lines}
use ndp_auto_offload.NearMap.Trace.Distinct.{IsMap, AreMaps, read_lines-AreMaps}
use ndp_auto_offload.NearMap.Analysis.{
  Counts, untouched, count_access, count_accesses, count_phase, zero_counts,
}

-- What the rows of a file give as new reads in all, in pages.
unfoldable pub new_reads_total : List TracePhase → List TracePhase → ℕ
new_reads_total before [] = 0
new_reads_total before (phase ∷ after) =
    (count_phase before phase after).new_reads + new_reads_total (before ++ phase ∷ []) after

-- Whether the first phase that accesses the page reads it.
unfoldable pub first_reads : ℕ → List TracePhase → Bool
first_reads pid [] = false
first_reads pid (p ∷ ps) = elim (get pid p.accesses) [
  | none ↦ first_reads pid ps
  | some ty ↦ is_read ty
]

unfoldable pub times : ℕ → List ℕ → ℕ
times k [] = 0
times k (u ∷ us) = (if k == u then 1 else 0) + times k us

-- Each page of the phases is once in the list.
abbrev pub ListsEach : List ℕ → List TracePhase → Type 0
ListsEach pages phases = All (λ p. All (λ a. times a.0 pages ≡ 1) p.accesses) phases

sum_over : (ℕ → ℕ) → List ℕ → ℕ
sum_over n [] = 0
sum_over n (u ∷ us) = n u + sum_over n us

sum_over_ext : (m n : ℕ → ℕ) → ((u : ℕ) → m u ≡ n u) → (us : List ℕ) → sum_over m us ≡ sum_over n us
unfolding sum_over
sum_over_ext m n h [] = refl
sum_over_ext m n h (u ∷ us) = omega (arith, h u, sum_over_ext m n h us)

sum_over_add :
    (m n : ℕ → ℕ) (us : List ℕ) → sum_over (λ u. m u + n u) us ≡ sum_over m us + sum_over n us
unfolding sum_over
sum_over_add m n [] = omega arith
sum_over_add m n (u ∷ us) = omega (arith, sum_over_add m n us)

bit : Bool → ℕ
bit b = if b then 1 else 0

sum_over-bit : (f : ℕ → Bool) (us : List ℕ) → sum_over (λ u. bit (f u)) us ≡ length (keep f us)
unfolding sum_over bit
sum_over-bit f [] = refl
sum_over-bit f (u ∷ us) = ground (arith, sum_over-bit f us)

-- A number at one page.
at_page : ℕ → ℕ → ℕ → ℕ
at_page k v u = if k == u then v else 0

sum_over-at_none : (k v : ℕ) (us : List ℕ) → times k us ≡ 0 → sum_over (at_page k v) us ≡ 0
unfolding sum_over times at_page
sum_over-at_none k v [] h = refl
sum_over-at_none k v (u ∷ us) h = ground (arith, sum_over-at_none k v us)

sum_over-at_page : (k v : ℕ) (us : List ℕ) → times k us ≡ 1 → sum_over (at_page k v) us ≡ v
unfolding sum_over times at_page
sum_over-at_page k v [] h = absurd (omega arith)
sum_over-at_page k v (u ∷ us) h = ground (arith, sum_over-at_none k v us, sum_over-at_page k v us)

-- What an access of a phase adds to its new reads.
adds : List TracePhase → ℕ → Option AccessType → ℕ
unfolding bit
adds before pid none = 0
adds before pid (some ty) = bit (is_read ty && untouched pid before)

sum_entries : List TracePhase → Accesses → ℕ
sum_entries before [] = 0
sum_entries before ((pid, ty) ∷ rest) = adds before pid (some ty) + sum_entries before rest

count_access-new :
    (before after : List TracePhase) (pid : ℕ) (ty : AccessType) (c : Counts)
    → (count_access before after (pid, ty) c).new_reads ≡ c.new_reads + adds before pid (some ty)
unfolding count_access adds
count_access-new before after pid ty c = ground arith

count_accesses-new :
    (before after : List TracePhase) (m : Accesses) (c : Counts)
    → (count_accesses before after m c).new_reads ≡ c.new_reads + sum_entries before m
unfolding count_accesses sum_entries
count_accesses-new before after [] c = omega arith
count_accesses-new before after ((pid, ty) ∷ m) c = omega (
  arith,
  count_accesses-new before after m (count_access before after (pid, ty) c),
  count_access-new before after pid ty c,
)

-- The access of a page in a map with one more page.
adds-cons :
    (before : List TracePhase) (k : ℕ) (ty : AccessType) (m : Accesses) (u : ℕ)
    → get k m ≡ none
    → adds before u (get u ((k, ty) ∷ m))
      ≡ at_page k (adds before k (some ty)) u + adds before u (get u m)
unfolding get at_page adds
adds-cons before k ty m u absent = elim (Bool-cases (k == u)) [
  | inl e ↦ let same : k ≡ u = (==_iff k u).0 e in rw (e, ← same, absent) (omega arith)
  | inr e ↦ rw e (omega arith)
]

no_entries :
    (before : List TracePhase) (pages : List ℕ) → sum_over (λ u. adds before u (get u [])) pages ≡ 0
unfolding sum_over get adds
no_entries before [] = refl
no_entries before (u ∷ us) = omega (arith, no_entries before us)

entries-pages :
    (before : List TracePhase) (pages : List ℕ) (m : Accesses)
    → IsMap m
    → All (λ a. times a.0 pages ≡ 1) m
    → sum_entries before m ≡ sum_over (λ u. adds before u (get u m)) pages
unfolding sum_entries
entries-pages before pages [] h each = sym (no_entries before pages)
entries-pages before pages ((k, ty) ∷ m) h each = omega (
  arith,
  sum_over_ext (λ u. adds before u (get u ((k, ty) ∷ m)))
      (λ u. at_page k (adds before k (some ty)) u + adds before u (get u m))
      (λ u. adds-cons before k ty m u h.0) pages,
  sum_over_add (at_page k (adds before k (some ty))) (λ u. adds before u (get u m)) pages,
  sum_over-at_page k (adds before k (some ty)) pages each.0,
  entries-pages before pages m h.1 each.1,
)

untouched-append :
    (pid : ℕ) (before : List TracePhase) (p : TracePhase)
    → untouched pid (before ++ p ∷ [])
      ≡ (untouched pid before && elim (get pid p.accesses) [ none ↦ true | some at ↦ false ])
unfolding untouched
untouched-append pid [] p = ground arith
untouched-append pid (q ∷ before) p = ground (arith, untouched-append pid before p)

-- What the phases from a place on add at one page.
first_adds : List TracePhase → List TracePhase → ℕ → ℕ
unfolding bit
first_adds before phases u = if untouched u before then bit (first_reads u phases) else 0

first_adds_step :
    (before after : List TracePhase) (p : TracePhase) (u : ℕ)
    → first_adds before (p ∷ after) u
      ≡ adds before u (get u p.accesses) + first_adds (before ++ p ∷ []) after u
unfolding first_adds first_reads adds
first_adds_step before after p u = elim (Option-cases (get u p.accesses)) [
  | inl absent ↦ rw (absent, untouched-append u before p, absent) (ground arith)
  | inr (ty, found) ↦ rw (found, untouched-append u before p, found) (ground arith)
]

none_left : (before : List TracePhase) (us : List ℕ) → sum_over (first_adds before []) us ≡ 0
unfolding sum_over first_adds first_reads bit
none_left before [] = refl
none_left before (u ∷ us) = ground (arith, none_left before us)

new_reads_from :
    (before phases : List TracePhase) (pages : List ℕ)
    → AreMaps phases
    → ListsEach pages phases
    → new_reads_total before phases ≡ sum_over (first_adds before phases) pages
unfolding new_reads_total
new_reads_from before [] pages h each = sym (none_left before pages)
new_reads_from before (p ∷ after) pages h each =
    let here : (count_phase before p after).new_reads ≡ sum_entries before p.accesses =
      unfold count_phase zero_counts in
      (count_accesses-new before after p.accesses zero_counts ∙ omega arith) in
    omega (
      arith,
      here,
      entries-pages before pages p.accesses h.0 each.0,
      new_reads_from (before ++ p ∷ []) after pages h.1 each.1,
      sum_over_add (λ u. adds before u (get u p.accesses)) (first_adds (before ++ p ∷ []) after)
          pages,
      sum_over_ext (first_adds before (p ∷ after))
          (λ u. adds before u (get u p.accesses) + first_adds (before ++ p ∷ []) after u)
          (first_adds_step before after p) pages,
    )

-- Of a log that is read, and a list that has each page that its phases access once: the new reads of
-- all phases are as many as the pages that the first phase to access them reads.
pub new_reads_once :
    (input : List (Option Text)) (s : Parsing) (pages : List ℕ)
    → read_lines input start ≡ ok s
    → ListsEach pages s.phases
    → new_reads_total [] s.phases ≡ length (keep (λ u. first_reads u s.phases) pages)
unfolding start first_adds untouched
new_reads_once input s pages read each =
    new_reads_from [] s.phases pages (read_lines-AreMaps input start s read tt) each
    ∙ sum_over-bit (λ u. first_reads u s.phases) pages
