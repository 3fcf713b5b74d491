-- ===== src/Faasmspeed/Phases/Invariant.antt =====
-- The invariant of the tasks of faasmspeed/src/main.rs, and what it says of the monitoring.
use ndp_auto_offload.Base.{
  refl, ◌≡◌, arith, ◌⊎◌, inl, inr, Bool-cases, map, length, ℕ, suc, ◌<◌, ◌≤◌, Bool, true, false,
  List, ◌∷◌, [], All,
}
use ndp_auto_offload.Faasmspeed.Phases.Parties.{Barrier}
use ndp_auto_offload.Faasmspeed.Phases.Sums.{All-map, All-both}
use ndp_auto_offload.Faasmspeed.Phases.{
  Stage, running, waiting, Handle, Task, Main, System, Reach, new_system, all_ended, no_more,
}
use ndp_auto_offload.Faasmspeed.Phases.Kept.{Kept-Reach}
use ndp_auto_offload.Faasmspeed.Phases.Guards.{level, TaskOk, Kept-TaskOk, All-TaskOk}
use ndp_auto_offload.Faasmspeed.Phases.Monitoring.{passed, MainOk, MainOk-new_system, Kept-MainOk}
use ndp_auto_offload.Faasmspeed.Phases.Sync.{InStep, Together}
use ndp_auto_offload.Faasmspeed.Phases.Lockstep.{stages, Reach-Together}

pub stage_bounds :
    (gen : ℕ) (p : Stage)
    → InStep gen p
    → (passed p ≤ gen) × (gen ≤ level p) × (level p ≤ suc (passed p)) × (passed p ≤ level p)
unfolding InStep passed level
stage_bounds gen (running k) h = omega (arith, h)
stage_bounds gen (waiting k g) (q, inl h) = omega (arith, h)
stage_bounds gen (waiting k g) (q, inr h) = omega (arith, h)

pub All-stages :
    (P : Stage → Type 0) (ts : List Task)
    → All P (map (λ t. t.stage) ts)
    → All (λ (t : Task). P t.stage) ts
All-stages P [] h = tt
All-stages P (t ∷ ts) h = (h.0, All-stages P ts h.1)

pub stages-All :
    (P : Stage → Type 0) (ts : List Task)
    → All (λ (t : Task). P t.stage) ts
    → All P (map (λ t. t.stage) ts)
stages-All P [] h = tt
stages-All P (t ∷ ts) h = (h.0, stages-All P ts h.1)

-- The requests of a task run between `[` and `]`.
abbrev pub IsMonitored : Main → Task → Type 0
IsMonitored m t =
    ((t.handles ≡ []) ⊎ (m.opened ≡ true))
    × ((m.closed ≡ false) ⊎ ((no_more t.todo ≡ true) × (all_ended t.handles ≡ true)))

spawned_none : (hs : List (Bool × Handle)) → (hs ≡ []) ⊎ (0 < length hs)
spawned_none [] = inl refl
spawned_none (h ∷ hs) = inr (omega arith)

IsMonitored-at :
    (oneshot : Bool) (gen : ℕ) (m : Main) (t : Task)
    → InStep gen m.stage
    → MainOk oneshot m
    → TaskOk oneshot t × InStep gen t.stage
    → IsMonitored m t
IsMonitored-at oneshot gen m t hm mok (tok, ht) =
    let main_at = stage_bounds gen m.stage hm in
    let task_at = stage_bounds gen t.stage ht in
    (
      elim (spawned_none t.handles) [
        | inl none ↦ inl none
        | inr some ↦ inr (mok.opens (omega (arith, tok.starts some, main_at, task_at)))
      ],
      elim (Bool-cases m.closed) [
        | inl c ↦ inr (tok.ends (omega (arith, mok.closes c, main_at, task_at)))
        | inr o ↦ inl o
      ],
    )

module _ {B : Type 0} ⦃bar : Barrier B⦄ where
  pub record Inv (oneshot : Bool) (s : System B) : Type 0 where
    pub together : Together s.barrier (stages s)
    pub tasks_ok : All (TaskOk oneshot) s.tasks
    pub main_ok : MainOk oneshot s.main

  module _ (oneshot : Bool) (plans : List (List Bool)) (size : bar.size ≡ suc (length plans))
      (s : System B) (r : Reach oneshot (new_system bar.fresh plans) s) where
    pub Reach-Inv : Inv oneshot s
    unfolding new_system
    Reach-Inv = record {
      together = Reach-Together oneshot plans size s r;
      tasks_ok = Kept-Reach oneshot (Kept-TaskOk oneshot) _ s r (All-TaskOk oneshot plans);
      main_ok =
          Kept-Reach oneshot (Kept-MainOk oneshot) _ s r
            (MainOk-new_system bar.fresh oneshot plans);
    }

    -- In every run of the tasks, in any order, no task runs ahead of the others: those that run have
    -- passed as many barriers as there were generations, and the others wait for the barrier of this
    -- generation or are about to wake up from the one before it.
    pub Reach-InStep : All (InStep (bar.generation s.barrier)) (stages s)
    Reach-InStep = Reach-Inv.together.in_step

    -- In every run of the tasks, in any order, `[` is written to the monitoring hosts before any
    -- request is spawned, and when `]` is written every request that was planned is spawned and has
    -- ended.
    pub Reach-IsMonitored : All (IsMonitored s.main) s.tasks
    Reach-IsMonitored =
        let inv = Reach-Inv in
        let aligned =
          All-stages (InStep (bar.generation s.barrier)) s.tasks inv.together.in_step.1 in
        All-map _ (IsMonitored s.main) s.tasks
          (λ t.
            IsMonitored-at oneshot (bar.generation s.barrier) s.main t inv.together.in_step.0
              inv.main_ok)
          (All-both _ _ s.tasks inv.tasks_ok aligned)
