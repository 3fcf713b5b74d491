-- ===== src/NearMap/Analysis/Bounds.antt =====
-- How the four counts of a phase are related, for any phases around it.
use ndp_auto_offload.Base.{ℕ, suc, ◌+◌, ◌≤◌, ◌≡◌, refl, List, [], ◌∷◌, length, arith}
use ndp_auto_offload.NearMap.Access.{AccessType, Accesses, TracePhase, is_read, is_write}
use ndp_auto_offload.NearMap.Analysis.{
  Counts, zero_counts, count_access, count_accesses, count_phase, untouched, unread,
}

-- What the loop keeps, after `n` accesses.
pub record Consistent (n : ℕ) (c : Counts) : Type 0 where
  pub new_le : c.new_reads ≤ c.read_pages
  pub dead_le : c.dead_writes ≤ c.written_pages
  pub read_le : c.read_pages ≤ n
  pub written_le : c.written_pages ≤ n
  pub covered : n ≤ c.read_pages + c.written_pages

module _ (before after : List TracePhase) where
  count_access-Consistent :
      (a : ℕ × AccessType) (n : ℕ) (c : Counts)
      → Consistent n c
      → Consistent (suc n) (count_access before after a c)
  unfolding count_access is_read is_write
  count_access-Consistent (pid, access) n c h = ground arith

  count_accesses-Consistent :
      (as_ : Accesses) (n : ℕ) (c : Counts)
      → Consistent n c
      → Consistent (length as_ + n) (count_accesses before after as_ c)
  unfolding count_accesses
  count_accesses-Consistent [] n c h = ground arith
  count_accesses-Consistent (a ∷ as_) n c h =
      let rest = count_accesses-Consistent as_ (suc n) _ (count_access-Consistent a n c h) in
      let e : length as_ + suc n ≡ suc (length as_) + n = omega arith in rw e at rest

-- In every phase: new reads are reads, dead writes are writes, no more pages are read or written
-- than are accessed, and every accessed page is read or written.
pub count_phase-Consistent :
    (before after : List TracePhase) (phase : TracePhase)
    → Consistent (length phase.accesses) (count_phase before phase after)
unfolding count_phase zero_counts
count_phase-Consistent before after phase =
    let h = count_accesses-Consistent before after phase.accesses 0 zero_counts (omega arith) in
    let e : length phase.accesses + 0 ≡ length phase.accesses = omega arith in rw e at h

first_access :
    (after : List TracePhase) (a : ℕ × AccessType) (c : Counts)
    → c.new_reads ≡ c.read_pages
    → let d = count_access [] after a c in d.new_reads ≡ d.read_pages
unfolding count_access untouched
first_access after (pid, access) c h = ground arith

first_accesses :
    (after : List TracePhase) (as_ : Accesses) (c : Counts)
    → c.new_reads ≡ c.read_pages
    → let d = count_accesses [] after as_ c in d.new_reads ≡ d.read_pages
unfolding count_accesses
first_accesses after [] c h = h
first_accesses after (a ∷ as_) c h = first_accesses after as_ _ (first_access after a c h)

last_access :
    (before : List TracePhase) (a : ℕ × AccessType) (c : Counts)
    → c.dead_writes ≡ c.written_pages
    → let d = count_access before [] a c in d.dead_writes ≡ d.written_pages
unfolding count_access unread
last_access before (pid, access) c h = ground arith

last_accesses :
    (before : List TracePhase) (as_ : Accesses) (c : Counts)
    → c.dead_writes ≡ c.written_pages
    → let d = count_accesses before [] as_ c in d.dead_writes ≡ d.written_pages
unfolding count_accesses
last_accesses before [] c h = h
last_accesses before (a ∷ as_) c h = last_accesses before as_ _ (last_access before a c h)

-- In the first phase every read page is a new read, and in the last phase every written page is a
-- dead write.
pub edges :
    (phase : TracePhase) (others : List TracePhase)
    → ((count_phase [] phase others).new_reads ≡ (count_phase [] phase others).read_pages)
      × ((count_phase others phase []).dead_writes ≡ (count_phase others phase []).written_pages)
unfolding count_phase zero_counts
edges phase others = (
  first_accesses others phase.accesses zero_counts refl,
  last_accesses others phase.accesses zero_counts refl,
)
