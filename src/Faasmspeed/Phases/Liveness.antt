-- ===== src/Faasmspeed/Phases/Liveness.antt =====
-- The steps by which the tasks of faasmspeed/src/main.rs come to their end.
use ndp_auto_offload.Base.{◌≡◌, inl, inr, arith, length, ℕ, zero, suc, ◌<◌, Bool, List}
use ndp_auto_offload.Faasmspeed.Phases.Parties.{Barrier}
use ndp_auto_offload.Faasmspeed.Phases.{System, Reach, here, next, new_system}
use ndp_auto_offload.Faasmspeed.Phases.Invariant.{Reach-Inv}
use ndp_auto_offload.Faasmspeed.Phases.NoDeadlock.{AllFinished, Inv-CanStep}
use ndp_auto_offload.Faasmspeed.Phases.Ends.{steps_left, Step-left}

module _ {B : Type 0} ⦃bar : Barrier B⦄ (oneshot : Bool) where
  reach_append : {s t u : System B} → Reach oneshot s t → Reach oneshot t u → Reach oneshot s u
  reach_append r here = r
  reach_append r (next q step) = next (reach_append r q) step

  module _ (plans : List (List Bool)) (size : bar.size ≡ suc (length plans)) where
    finish :
        (fuel : ℕ) (s : System B)
        → steps_left s < fuel
        → Reach oneshot (new_system bar.fresh plans) s
        → (u : System B) × Reach oneshot s u × AllFinished oneshot u
    finish zero s h r = elim none [ ]
      where
        none : ⊥
        none = omega (arith, h)
    finish (suc fuel) s h r = elim (Inv-CanStep oneshot s (Reach-Inv oneshot plans size s r)) [
      | inr done ↦ (s, here, done)
      | inl (t, step) ↦
          let less = Step-left oneshot s t (Reach-Inv oneshot plans size s r) step in
          let (u, rest, done) = finish fuel t (omega (arith, less, h)) (next r step) in
          (u, reach_append (next here step) rest, done)
    ]

    -- The tasks never block each other: from every state that a run reaches, in any order of the
    -- steps before, the tasks can go on to the state in which each function's task and `async_main`
    -- are behind their last barrier and `]` is written, or in a oneshot run behind the first one.
    pub Reach-AllFinished :
        (s : System B)
        → Reach oneshot (new_system bar.fresh plans) s
        → (u : System B) × Reach oneshot s u × AllFinished oneshot u
    Reach-AllFinished s r = finish (suc (steps_left s)) s (omega arith) r
