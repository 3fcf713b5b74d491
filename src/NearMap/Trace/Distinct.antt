-- ===== src/NearMap/Trace/Distinct.antt =====
-- The maps of the phases that `analyse_file` reads hold each page once.
use ndp_auto_offload.Base.{
  ℕ, ◌≡◌, false, refl, ◌==◌, ⊤, Option, none, some, List, [], ◌∷◌, All, All-append, ok, >>=-eq-ok,
  ok-injective, some-eq, or_panic, or_err, unwrap_failed, read_failed, Bool-cases, inl, inr, arith,
}
use ndp_auto_offload.Text.{Text, codes, starts_with, contains}
use ndp_auto_offload.NearMap.Access.{
  AccessType, Accesses, TracePhase, try_from_rw, get, insert, get-insert, new,
}
use ndp_auto_offload.NearMap.Trace.{
  Parsing, fields, field, number, number_or_zero, insert_last, trace_line, phase_line, read_line,
  read_lines,
}
use ndp_auto_offload.NearMap.Trace.Names.{map-eq-some, or_panic-eq-ok}

abbrev pub IsMap : Accesses → Type 0
IsMap [] = ⊤
IsMap ((page, ty) ∷ rest) = (get page rest ≡ none) × IsMap rest

other_absent :
    (page q : ℕ) (ty : AccessType) (rest : Accesses)
    → (q == page) ≡ false
    → get q rest ≡ none
    → get q (insert page ty rest) ≡ none
other_absent page q ty rest ne absent = ground (arith, get-insert page q ty rest)

insert-IsMap : (page : ℕ) (ty : AccessType) (m : Accesses) → IsMap m → IsMap (insert page ty m)
unfolding insert get
insert-IsMap page ty [] h = (refl, tt)
insert-IsMap page ty ((q, old) ∷ rest) h = elim (Bool-cases (q == page)) [
  | inl e ↦ rw e h
  | inr e ↦ rw e (other_absent page q ty rest e h.0, insert-IsMap page ty rest h.1)
]

abbrev pub AreMaps : List TracePhase → Type 0
AreMaps ps = All (λ p. IsMap p.accesses) ps

insert_last-AreMaps :
    (page : ℕ) (ty : AccessType) (ps qs : List TracePhase)
    → insert_last page ty ps ≡ some qs
    → AreMaps ps
    → AreMaps qs
unfolding insert_last
insert_last-AreMaps page ty [] qs e h = cc
insert_last-AreMaps page ty (p ∷ []) qs e h =
    rw (← some-eq e) ((insert-IsMap page ty p.accesses h.0, tt))
insert_last-AreMaps page ty (p ∷ q ∷ ps) qs e h =
    let (rs, found, eq) = map-eq-some (λ r. p ∷ r) (insert_last page ty (q ∷ ps)) qs e in
    rw (← eq) ((h.0, insert_last-AreMaps page ty (q ∷ ps) rs found h.1))

trace_line-AreMaps :
    (line : Text) (s t : Parsing) → trace_line line s ≡ ok t → AreMaps s.phases → AreMaps t.phases
unfolding trace_line
trace_line-AreMaps line s t e h =
    let (_, _, r1) = >>=-eq-ok (field (fields line) 4) _ e in
    let (page, _, r2) = >>=-eq-ok (number _) _ r1 in
    let (flags, _, r3) = >>=-eq-ok (field (fields line) 5) _ r2 in
    let (ty, _, r4) =
      >>=-eq-ok (or_panic unwrap_failed (try_from_rw (contains b'R' flags) (contains b'W' flags))) _
        r3 in
    let (phases, found, r5) =
      >>=-eq-ok (or_panic unwrap_failed (insert_last page ty s.phases)) _ r4 in
    rw (← ok-injective r5) (insert_last-AreMaps page ty s.phases phases (or_panic-eq-ok _ found) h)

phase_line-AreMaps :
    (line : Text) (s t : Parsing) → phase_line line s ≡ ok t → AreMaps s.phases → AreMaps t.phases
unfolding phase_line new
phase_line-AreMaps line s t e h =
    let spl = fields line in
    let (_, _, r1) = >>=-eq-ok (field spl 1) _ e in
    let (_, _, r2) = >>=-eq-ok (number _) _ r1 in
    let (_, _, r3) = >>=-eq-ok (field spl 2) _ r2 in
    let (_, _, r4) = >>=-eq-ok (number _) _ r3 in
    let (_, _, r5) = >>=-eq-ok (field spl 3) _ r4 in
    let (_, _, r6) = >>=-eq-ok (number _) _ r5 in
    let (_, _, r7) = >>=-eq-ok (field spl 4) _ r6 in
    let (_, _, r8) = >>=-eq-ok (number_or_zero spl 5) _ r7 in
    let (_, _, r9) = >>=-eq-ok (number_or_zero spl 6) _ r8 in
    rw (← ok-injective r9) (All-append (λ (p : TracePhase). IsMap p.accesses) s.phases _ h (tt, tt))

read_line-AreMaps :
    (line : Text) (s t : Parsing) → read_line line s ≡ ok t → AreMaps s.phases → AreMaps t.phases
unfolding read_line
read_line-AreMaps line s t e h = elim (Bool-cases (starts_with (codes "trace;") line)) [
  | inl trace ↦ trace_line-AreMaps line s t (rw trace at e) h
  | inr other ↦ elim (Bool-cases (starts_with (codes "phase;") line)) [
    | inl phase ↦ phase_line-AreMaps line s t (rw (other, phase) at e) h
    | inr neither ↦ let same : ok s ≡ ok t = rw (other, neither) at e in rw (← ok-injective same) h
  ]
]

-- Every phase of a log that is read holds each page once.
pub read_lines-AreMaps :
    (input : List (Option Text)) (s t : Parsing)
    → read_lines input s ≡ ok t
    → AreMaps s.phases
    → AreMaps t.phases
unfolding read_lines
read_lines-AreMaps [] s t e h = rw (← ok-injective e) h
read_lines-AreMaps (l ∷ ls) s t e h =
    let (line, _, r1) = >>=-eq-ok (or_err read_failed l) _ e in
    let (s', first, r2) = >>=-eq-ok (read_line line s) _ r1 in
    read_lines-AreMaps ls s' t r2 (read_line-AreMaps line s s' first h)
