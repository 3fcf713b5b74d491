-- ===== src/NearMap/Trace/Names.antt =====
-- Which marker of a log names which phase.
use ndp_auto_offload.Base.{
  ℕ, ◌≡◌, refl, sym, ap, ◌∙◌, ◌++◌, append_assoc, append-nil, Option, none, some, List, [], ◌∷◌,
  map, ok, >>=-eq-ok, ok-injective, or_panic, unwrap_failed, get_elem?, inl, inr, Bool-cases, arith,
  if◌then◌else◌, some-eq,
}
use mathlib.Core.Option
use ndp_auto_offload.Text.{Text, codes, starts_with, contains}
use ndp_auto_offload.NearMap.Access.{AccessType, TracePhase, new, try_from_rw}
use ndp_auto_offload.NearMap.Trace.{
  Parsing, start, fields, field, number, number_or_zero, insert_last, trace_line, phase_line,
  read_line, read_lines,
}

-- The names announced so far: those of the phases, and the next one.
abbrev pub announced : Parsing → List Text
announced s = map (λ p. p.name) s.phases ++ s.next_phase ∷ []

-- The names in the `phase;` lines of a log.
pub markers : List (Option Text) → List Text
markers [] = []
markers (none ∷ ls) = markers ls
markers (some line ∷ ls) =
    if starts_with (codes "trace;") line
    then markers ls
    else if starts_with (codes "phase;") line
    then elim (get_elem? (fields line) 4) [ none ↦ markers ls | some name ↦ name ∷ markers ls ]
    else markers ls

map-append :
    (ps qs : List TracePhase)
    → map (λ p. p.name) (ps ++ qs) ≡ map (λ p. p.name) ps ++ map (λ p. p.name) qs
map-append [] qs = refl
map-append (p ∷ ps) qs = ap (λ l. p.name ∷ l) (map-append ps qs)

pub map-eq-some :
    {A B : Type 0} (f : A → B) (o : Option A) (b : B)
    → Option.map f o ≡ some b
    → (a : A) × (o ≡ some a) × (f a ≡ b)
map-eq-some f none b e = cc
map-eq-some f (some a) b e = (a, refl, some-eq e)

pub or_panic-eq-ok :
    {A : Type 0} (o : Option A) {a : A} → or_panic unwrap_failed o ≡ ok a → o ≡ some a
or_panic-eq-ok none e = cc
or_panic-eq-ok (some a) e = cc

-- The insertion of an access renames nothing.
insert_last-names :
    (page : ℕ) (ty : AccessType) (ps qs : List TracePhase)
    → insert_last page ty ps ≡ some qs
    → map (λ p. p.name) qs ≡ map (λ p. p.name) ps
unfolding insert_last
insert_last-names page ty [] qs e = cc
insert_last-names page ty (p ∷ []) qs e = ap (map (λ r. r.name)) (sym (some-eq e))
insert_last-names page ty (p ∷ q ∷ ps) qs e =
    let (rs, found, eq) = map-eq-some (λ r. p ∷ r) (insert_last page ty (q ∷ ps)) qs e in
    rw (← eq) (ap (λ l. p.name ∷ l) (insert_last-names page ty (q ∷ ps) rs found))

trace_line-announced :
    (line : Text) (s t : Parsing) → trace_line line s ≡ ok t → announced t ≡ announced s
unfolding trace_line
trace_line-announced line s t e =
    let (page, e1, r1) = >>=-eq-ok (field (fields line) 4) _ e in
    let (pageidx, e2, r2) = >>=-eq-ok (number page) _ r1 in
    let (flags, e3, r3) = >>=-eq-ok (field (fields line) 5) _ r2 in
    let (ty, e4, r4) =
      >>=-eq-ok (or_panic unwrap_failed (try_from_rw (contains b'R' flags) (contains b'W' flags))) _
        r3 in
    let (phases, e5, r5) =
      >>=-eq-ok (or_panic unwrap_failed (insert_last pageidx ty s.phases)) _ r4 in
    let kept = insert_last-names pageidx ty s.phases phases (or_panic-eq-ok _ e5) in
    sym (ap announced (ok-injective r5)) ∙ ap (λ l. l ++ s.next_phase ∷ []) kept

phase_line-announced :
    (line : Text) (s t : Parsing)
    → phase_line line s ≡ ok t
    → (name : Text) × (get_elem? (fields line) 4 ≡ some name)
      × (announced t ≡ announced s ++ name ∷ [])
unfolding phase_line new
phase_line-announced line s t e =
    let (f1, _, r1) = >>=-eq-ok (field (fields line) 1) _ e in
    let (page_size, _, r2) = >>=-eq-ok (number f1) _ r1 in
    let (f2, _, r3) = >>=-eq-ok (field (fields line) 2) _ r2 in
    let (begins, _, r4) = >>=-eq-ok (number f2) _ r3 in
    let (f3, _, r5) = >>=-eq-ok (field (fields line) 3) _ r4 in
    let (ends, _, r6) = >>=-eq-ok (number f3) _ r5 in
    let (name, found, r7) = >>=-eq-ok (field (fields line) 4) _ r6 in
    let (instructions, _, r8) = >>=-eq-ok (number_or_zero (fields line) 5) _ r7 in
    let (io_bytes, _, r9) = >>=-eq-ok (number_or_zero (fields line) 6) _ r8 in
    (
      name,
      unfold field in or_panic-eq-ok (get_elem? (fields line) 4) found,
      sym (ap announced (ok-injective r9)) ∙ ap (λ l. l ++ name ∷ []) (map-append s.phases _),
    )

-- Each line adds the name that it announces, if it announces one.
announced_by : Text → List Text
announced_by line =
    if starts_with (codes "trace;") line
    then []
    else if starts_with (codes "phase;") line
    then elim (get_elem? (fields line) 4) [ none ↦ [] | some name ↦ name ∷ [] ]
    else []

read_line-announced :
    (line : Text) (s t : Parsing)
    → read_line line s ≡ ok t
    → announced t ≡ announced s ++ announced_by line
unfolding read_line announced_by
read_line-announced line s t e = elim (Bool-cases (starts_with (codes "trace;") line)) [
  | inl is_trace ↦ rw (is_trace, append-nil) (trace_line-announced line s t (rw is_trace at e))
  | inr not_trace ↦ elim (Bool-cases (starts_with (codes "phase;") line)) [
    | inl is_phase ↦
        let (name, found, eq) = phase_line-announced line s t (rw (not_trace, is_phase) at e) in
        rw (not_trace, is_phase, found) eq
    | inr other ↦
        let same = ok-injective (rw (not_trace, other) at e) in
        rw (not_trace, other, append-nil) (sym (ap announced same))
  ]
]

markers-cons :
    (line : Text) (ls : List (Option Text))
    → markers (some line ∷ ls) ≡ announced_by line ++ markers ls
unfolding markers announced_by
markers-cons line ls = ground arith

read_lines-announced :
    (ls : List (Option Text)) (s t : Parsing)
    → read_lines ls s ≡ ok t
    → announced t ≡ announced s ++ markers ls
unfolding read_lines
read_lines-announced [] s t e =
    unfold markers in rw append-nil (sym (ap announced (ok-injective e)))
read_lines-announced (none ∷ ls) s t e = cc
read_lines-announced (some line ∷ ls) s t e =
    let (mid, e1, e2) = >>=-eq-ok (read_line line s) _ e in
    rw (markers-cons, ← append_assoc, ← read_line-announced line s mid e1)
      (read_lines-announced ls mid t e2)

-- If a log is read without a panic or an error, the names of its phases are `pre-main` and then
-- the names in its `phase;` lines, but the last of these, which is left for the phase after the
-- end.
pub read_lines-names :
    (ls : List (Option Text)) (t : Parsing)
    → read_lines ls start ≡ ok t
    → map (λ p. p.name) t.phases ++ t.next_phase ∷ [] ≡ codes "pre-main" ∷ markers ls
unfolding start
read_lines-names ls t e = read_lines-announced ls _ t e
