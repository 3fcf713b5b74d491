-- ===== src/Faasmspeed/Phases/Progress.antt =====
-- No run of the tasks of faasmspeed/src/main.rs comes to a stop before its end.
use ndp_auto_offload.Base.{
  ap, refl, ◌≡◌, ◌≢◌, ◌⊎◌, inl, inr, arith, ℕ, zero, suc, ◌==◌, Bool, true, false, not,
  if◌then◌else◌, List, [], ◌∷◌, ◌++◌, Bool-cases, ==_iff,
}
use ndp_auto_offload.Faasmspeed.Phases.{
  SharedState, Stage, running, waiting, Handle, spawned, sent, ended, Task, Main, Move, pass, count,
  spawn, send, lose, all_ended, no_more, task_ready,
}
use ndp_auto_offload.Faasmspeed.Phases.Guards.{level, TaskOk}
use ndp_auto_offload.Faasmspeed.Phases.Sync.{waits_in, waits_in_own}

-- The barriers of a run, and how a task and `async_main` stand at its end.
unfoldable pub last_barrier : Bool → ℕ
last_barrier oneshot = if oneshot then 1 else 4

abbrev pub IsFinished : Bool → Task → Type 0
IsFinished oneshot t = t.stage ≡ running (last_barrier oneshot)

abbrev pub MainIsFinished : Bool → Main → Type 0
MainIsFinished oneshot m = (m.stage ≡ running (last_barrier oneshot)) × (m.closed ≡ not oneshot)

-- A request that has not ended, in the list of a task.
Unended : List (Bool × Handle) → Type 0
Unended all =
    (hs : List (Bool × Handle)) × (ks : List (Bool × Handle)) × (c : Bool) × ((all
        ≡ hs ++ (c, spawned) ∷ ks)
      ⊎ (all ≡ hs ++ (c, sent) ∷ ks))

find-Unended : (all : List (Bool × Handle)) → all_ended all ≡ false → Unended all
unfolding all_ended Unended
find-Unended [] h = ground arith
find-Unended ((c, spawned) ∷ hs) h = ([], hs, c, inl refl)
find-Unended ((c, sent) ∷ hs) h = ([], hs, c, inr refl)
find-Unended ((c, ended r) ∷ hs) h =
    let (before, after, d, which) = find-Unended hs h in
    (
      (c, ended r) ∷ before,
      after,
      d,
      elim which [
        | inl q ↦ inl (ap (λ l. (c, ended r) ∷ l) q)
        | inr q ↦ inr (ap (λ l. (c, ended r) ∷ l) q)
      ],
    )

pub ne_of : (a b : ℕ) → (a == b) ≡ false → a ≢ b
ne_of a b h = ground arith

-- What a task can do: move, call `wait`, or nothing, if it waits for this generation or is at its end.
pub data Next (oneshot : Bool) (gen : ℕ) (sh : SharedState) (t : Task) : Type 0 where
  can_move : (sh' : SharedState) (t' : Task) → Move gen sh t sh' t' → Next oneshot gen sh t
  can_wait : (k : ℕ) → t.stage ≡ running k → task_ready oneshot t k ≡ true → Next oneshot gen sh t
  rests : (waits_in gen t.stage ≡ 1) ⊎ IsFinished oneshot t → Next oneshot gen sh t

module _ (oneshot : Bool) (gen : ℕ) (sh : SharedState) (t : Task) where
  Next-Unended : Unended t.handles → Next oneshot gen sh t
  unfolding Unended
  Next-Unended (hs, ks, c, inl q) = can_move _ _ (send c hs ks q refl refl)
  Next-Unended (hs, ks, c, inr q) = can_move _ _ (lose c hs ks [] q refl refl)

  Next-todo : (cs : List Bool) → t.todo ≡ cs → t.stage ≡ running 3 → Next oneshot gen sh t
  unfolding task_ready no_more
  Next-todo (c ∷ cs) q st = can_move _ _ (spawn c cs st q refl refl)
  Next-todo [] q st = elim (Bool-cases (all_ended t.handles)) [
    | inl all ↦ can_wait 3 st (rw q (rw all refl))
    | inr some ↦ Next-Unended (find-Unended t.handles some)
  ]

  Next-running : (k : ℕ) → t.stage ≡ running k → TaskOk oneshot t → Next oneshot gen sh t
  unfolding task_ready level last_barrier
  Next-running zero st ok = can_wait 0 st refl
  Next-running (suc zero) st ok = elim (Bool-cases oneshot) [
    | inl one ↦ rests (inr (rw one st))
    | inr many ↦ can_wait 1 st (rw many refl)
  ]
  Next-running (suc (suc zero)) st ok = elim (Bool-cases t.counted) [
    | inl done ↦ can_wait 2 st done
    | inr not_yet ↦ can_move _ _ (count st not_yet refl refl)
  ]
  Next-running (suc (suc (suc zero))) st ok = Next-todo t.todo refl st
  Next-running (suc (suc (suc (suc zero)))) st ok = elim (Bool-cases oneshot) [
    | inl one ↦ elim (late one) [ ]
    | inr many ↦ rests (inr (rw many st))
  ]
    where
      late : oneshot ≡ true → ⊥
      late one = omega (arith, ok.once one, ap level st)
  Next-running (suc (suc (suc (suc (suc k))))) st ok = elim late [ ]
    where
      late : ⊥
      late = omega (arith, ok.limit, ap level st)

  pub Next-stage : (p : Stage) → t.stage ≡ p → TaskOk oneshot t → Next oneshot gen sh t
  Next-stage (running k) st ok = Next-running k st ok
  Next-stage (waiting k g) st ok = elim (Bool-cases (gen == g)) [
    | inl same ↦ rests (inl (rw st (rw ((==_iff gen g).0 same) (waits_in_own g k))))
    | inr other ↦ can_move _ _ (pass k g st (ne_of gen g other) refl refl)
  ]
