-- ===== src/Faasmspeed/Phases/Kept.antt =====
-- What every step of the tasks of faasmspeed/src/main.rs keeps, a case for each kind of step.
use ndp_auto_offload.Base.{◌≡◌, true, ℕ, Bool, List, ◌∷◌, ◌++◌}
use mathlib.Core.Path.{subst}
use ndp_auto_offload.Faasmspeed.Phases.Parties.{Barrier}
use ndp_auto_offload.Faasmspeed.Phases.{
  SharedState, running, waiting, Task, Main, System, Move, MainMove, Step, moves, waits, main_moves,
  main_waits, Reach, here, next, task_ready, main_ready,
}

module _ {B : Type 0} ⦃bar : Barrier B⦄ (oneshot : Bool) where
  pub record Kept (P : System B → Type 0) : Type 0 where
    pub by_move :
        (b : B) (sh : SharedState) (m : Main) (ts us : List Task) (t t' : Task) (sh' : SharedState)
        → Move (bar.generation b) sh t sh' t'
        → P (record { barrier = b; shared = sh; tasks = ts ++ t ∷ us; main = m })
        → P (record { barrier = b; shared = sh'; tasks = ts ++ t' ∷ us; main = m })
    pub by_wait :
        (b : B) (sh : SharedState) (m : Main) (ts us : List Task) (t : Task) (k : ℕ)
        → t.stage ≡ running k
        → task_ready oneshot t k ≡ true
        → P (record { barrier = b; shared = sh; tasks = ts ++ t ∷ us; main = m })
        → P (record {
          barrier = bar.arrive b;
          shared = sh;
          tasks = ts ++ record t { stage = waiting k (bar.generation b) } ∷ us;
          main = m;
        })
    pub by_main_move :
        (b : B) (sh : SharedState) (m : Main) (ts : List Task) (sh' : SharedState) (m' : Main)
        → MainMove oneshot (bar.generation b) sh m sh' m'
        → P (record { barrier = b; shared = sh; tasks = ts; main = m })
        → P (record { barrier = b; shared = sh'; tasks = ts; main = m' })
    pub by_main_wait :
        (b : B) (sh : SharedState) (m : Main) (ts : List Task) (k : ℕ)
        → m.stage ≡ running k
        → main_ready oneshot m k ≡ true
        → P (record { barrier = b; shared = sh; tasks = ts; main = m })
        → P (record {
          barrier = bar.arrive b;
          shared = sh;
          tasks = ts;
          main = record m { stage = waiting k (bar.generation b) };
        })

  module _ {P : System B → Type 0} (kept : Kept P) where
    regroup : (s : System B) (ts : List Task) → s.tasks ≡ ts → P s → P (record s { tasks = ts })
    regroup s ts q h = subst (λ l. P (record s { tasks = l })) q h

    pub Kept-Step : (s u : System B) → Step oneshot s u → P s → P u
    Kept-Step s u (moves ts us t t' sh' q mv e) h =
        rw e (kept.by_move s.barrier s.shared s.main ts us t t' sh' mv (regroup s _ q h))
    Kept-Step s u (waits ts us t k q st ready e) h =
        rw e (kept.by_wait s.barrier s.shared s.main ts us t k st ready (regroup s _ q h))
    Kept-Step s u (main_moves sh' m' mv e) h =
        rw e (kept.by_main_move s.barrier s.shared s.main s.tasks sh' m' mv h)
    Kept-Step s u (main_waits k st ready e) h =
        rw e (kept.by_main_wait s.barrier s.shared s.main s.tasks k st ready h)

    pub Kept-Reach : (s u : System B) → Reach oneshot s u → P s → P u
    Kept-Reach s u here h = h
    Kept-Reach s u (next {t} r step) h = Kept-Step t u step (Kept-Reach s t r h)
