-- ===== src/NearMap/Analysis/Once.antt =====
-- Which phases count a page as a new read, and which as a dead write.
use ndp_auto_offload.Base.{
  ℕ, ◌≡◌, refl, true, false, arith, List, [], ◌∷◌, ◌++◌, some, Option-cases, inl, inr,
}
use ndp_auto_offload.NearMap.Access.{AccessType, TracePhase, get, is_read}
use ndp_auto_offload.NearMap.Analysis.{Counts, count_access, untouched, unread}

-- A page that one of the phases has is not untouched.
touched :
    (pid : ℕ) (before later : List TracePhase) (p : TracePhase) (ty : AccessType)
    → get pid p.accesses ≡ some ty
    → untouched pid (before ++ p ∷ later) ≡ false
unfolding untouched
touched pid [] later p ty e = rw e refl
touched pid (q ∷ before) later p ty e =
    let rest = touched pid before later p ty e in
    elim (Option-cases (get pid q.accesses)) [
      | inl absent ↦ rw (absent, rest) refl
      | inr (at, found) ↦ rw found refl
    ]

read_later :
    (pid : ℕ) (before later : List TracePhase) (p : TracePhase) (ty : AccessType)
    → get pid p.accesses ≡ some ty
    → is_read ty ≡ true
    → unread pid (before ++ p ∷ later) ≡ false
unfolding unread
read_later pid [] later p ty e r = rw (e, r) refl
read_later pid (q ∷ before) later p ty e r =
    let rest = read_later pid before later p ty e r in
    elim (Option-cases (get pid q.accesses)) [
      | inl absent ↦ rw (absent, rest) refl
      | inr (at, found) ↦ rw (found, rest) (ground arith)
    ]

-- A page that any earlier phase accessed adds no new read, and a page that any later phase reads adds
-- no dead write, wherever these phases stand.
pub count_access-once :
    (pid : ℕ) (access : AccessType) (c : Counts) (b1 b2 a1 a2 : List TracePhase) (p q : TracePhase)
    (ty uy : AccessType)
    → get pid p.accesses ≡ some ty
    → get pid q.accesses ≡ some uy
    → is_read uy ≡ true
    → let d = count_access (b1 ++ p ∷ b2) (a1 ++ q ∷ a2) (pid, access) c in
      (d.new_reads ≡ c.new_reads) × (d.dead_writes ≡ c.dead_writes)
unfolding count_access
count_access-once pid access c b1 b2 a1 a2 p q ty uy e f r =
    rw (touched pid b1 b2 p ty e, read_later pid a1 a2 q uy f r) (ground arith)
