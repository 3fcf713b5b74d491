-- ===== src/Faasmspeed/Phases/NoDeadlock.antt =====
-- In every run of the tasks of faasmspeed/src/main.rs a step is left, until all are at their end.
use ndp_auto_offload.Base.{
  sym, ◌∙◌, append_assoc, refl, ◌≡◌, ◌≢◌, ◌⊎◌, inl, inr, arith, ℕ, ◌==◌, Bool, List, [], ◌∷◌, ◌++◌,
  All, Bool-cases, ==_iff,
}
use ndp_auto_offload.Faasmspeed.Phases.Parties.{Barrier}
use ndp_auto_offload.Faasmspeed.Phases.Sums.{sum_ones, All-map, All-both}
use ndp_auto_offload.Faasmspeed.Phases.{Task, System, Step, moves, waits, main_moves, main_waits}
use ndp_auto_offload.Faasmspeed.Phases.Guards.{TaskOk}
use ndp_auto_offload.Faasmspeed.Phases.Sync.{InStep, waits_in, Together}
use ndp_auto_offload.Faasmspeed.Phases.Lockstep.{stages}
use ndp_auto_offload.Faasmspeed.Phases.Invariant.{Inv, All-stages, stages-All}
use ndp_auto_offload.Faasmspeed.Phases.Progress.{
  last_barrier, IsFinished, MainIsFinished, can_move, can_wait, rests, Next-stage, ne_of,
}
use ndp_auto_offload.Faasmspeed.Phases.Onward.{
  main_can_move, main_can_wait, main_rests, NextMain-stage, no_wait_last, rest_early, level_last,
}

-- Every task and `async_main` are behind their last barrier, and `]` is written unless in a oneshot.
abbrev pub AllFinished : {B : Type 0} → Bool → System B → Type 0
AllFinished oneshot s = MainIsFinished oneshot s.main × All (IsFinished oneshot) s.tasks

module _ {B : Type 0} ⦃bar : Barrier B⦄ (oneshot : Bool) (s : System B) where
  abbrev pub CanStep : Type 0
  CanStep = (u : System B) × Step oneshot s u

  abbrev gen : ℕ
  gen = bar.generation s.barrier

  -- A task that can go on, or all of them rest.
  tasks_next :
      (before after : List Task)
      → s.tasks ≡ before ++ after
      → All (TaskOk oneshot) after
      → CanStep ⊎ All (λ (t : Task). (waits_in gen t.stage ≡ 1) ⊎ IsFinished oneshot t) after
  tasks_next before [] q h = inr tt
  tasks_next before (t ∷ after) q h = elim (Next-stage oneshot gen s.shared t t.stage refl h.0) [
    | can_move sh' t' mv ↦ inl (_, moves before after t t' sh' q mv refl)
    | can_wait k st ready ↦ inl (_, waits before after t k q st ready refl)
    | rests r ↦
        elim (tasks_next (before ++ t ∷ []) after (q ∙ sym (append_assoc before (t ∷ []) after))
          h.1) [ inl c ↦ inl c | inr rs ↦ inr (r, rs) ]
  ]

  -- Not all parties wait for the barrier.
  not-All-waits_in : Together s.barrier (stages s) → All (λ p. waits_in gen p ≡ 1) (stages s) → ⊥
  not-All-waits_in at all =
      omega (arith, at.counted, at.parties, at.room, sum_ones (waits_in gen) (stages s) all)

  finish_last :
      Inv oneshot s
      → gen ≡ last_barrier oneshot
      → (waits_in gen s.main.stage ≡ 1) ⊎ MainIsFinished oneshot s.main
      → All (λ (t : Task). (waits_in gen t.stage ≡ 1) ⊎ IsFinished oneshot t) s.tasks
      → AllFinished oneshot s
  finish_last inv last mr tr =
      (main_end mr, All-map _ _ s.tasks task_end (All-both _ _ s.tasks facts tr))
    where
      facts : All (λ (t : Task). TaskOk oneshot t × InStep gen t.stage) s.tasks
      facts =
          All-both _ _ s.tasks inv.tasks_ok (All-stages (InStep gen) s.tasks inv.together.in_step.1)

      main_end :
          (waits_in gen s.main.stage ≡ 1) ⊎ MainIsFinished oneshot s.main
          → MainIsFinished oneshot s.main
      main_end (inr end) = end
      main_end (inl w) =
          let low = level_last oneshot _ inv.main_ok.limit inv.main_ok.once in
          elim (no_wait_last oneshot gen s.main.stage last inv.together.in_step.0 low w) [ ]

      task_end :
          (t : Task)
          → (TaskOk oneshot t × InStep gen t.stage)
            × ((waits_in gen t.stage ≡ 1) ⊎ IsFinished oneshot t)
          → IsFinished oneshot t
      task_end t (h, inr end) = end
      task_end t ((ok, at), inl w) =
          let low = level_last oneshot _ ok.limit ok.once in
          elim (no_wait_last oneshot gen t.stage last at low w) [ ]

  All-waits_in :
      Inv oneshot s
      → gen ≢ last_barrier oneshot
      → (waits_in gen s.main.stage ≡ 1) ⊎ MainIsFinished oneshot s.main
      → All (λ (t : Task). (waits_in gen t.stage ≡ 1) ⊎ IsFinished oneshot t) s.tasks
      → All (λ p. waits_in gen p ≡ 1) (stages s)
  All-waits_in inv early mr tr =
      (main_wait mr, stages-All (λ p. waits_in gen p ≡ 1) s.tasks tasks_wait)
    where
      main_wait :
          (waits_in gen s.main.stage ≡ 1) ⊎ MainIsFinished oneshot s.main
          → waits_in gen s.main.stage ≡ 1
      main_wait (inl w) = w
      main_wait (inr end) =
          rest_early oneshot gen s.main.stage early inv.together.in_step.0 (inr end.0)

      tasks_wait : All (λ (t : Task). waits_in gen t.stage ≡ 1) s.tasks
      tasks_wait =
          All-map _ _ s.tasks (λ t h. rest_early oneshot gen t.stage early h.0 h.1)
            (All-both _ _ s.tasks (All-stages (InStep gen) s.tasks inv.together.in_step.1) tr)

  rest_finished :
      Inv oneshot s
      → (waits_in gen s.main.stage ≡ 1) ⊎ MainIsFinished oneshot s.main
      → All (λ (t : Task). (waits_in gen t.stage ≡ 1) ⊎ IsFinished oneshot t) s.tasks
      → AllFinished oneshot s
  rest_finished inv mr tr = elim (Bool-cases (gen == last_barrier oneshot)) [
    | inl last ↦ finish_last inv ((==_iff gen (last_barrier oneshot)).0 last) mr tr
    | inr early ↦
        elim (not-All-waits_in inv.together
          (All-waits_in inv (ne_of gen (last_barrier oneshot) early) mr tr)) [ ]
  ]

  pub Inv-CanStep : Inv oneshot s → CanStep ⊎ AllFinished oneshot s
  Inv-CanStep inv =
      elim (NextMain-stage oneshot gen s.shared s.main s.main.stage refl inv.main_ok) [
        | main_can_move sh' m' mv ↦ inl (_, main_moves sh' m' mv refl)
        | main_can_wait k st ready ↦ inl (_, main_waits k st ready refl)
        | main_rests mr ↦ elim (tasks_next [] s.tasks refl inv.tasks_ok) [
          | inl c ↦ inl c
          | inr tr ↦ inr (rest_finished inv mr tr)
        ]
      ]
