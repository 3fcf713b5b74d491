-- ===== src/Faasmspeed/Phases/Ends.antt =====
-- How many steps the tasks of faasmspeed/src/main.rs have left.
use ndp_auto_offload.Base.{
  ap, refl, ◌≡◌, arith, length, ℕ, suc, ◌+◌, ◌-◌, ◌*◌, ◌<◌, ◌≤◌, Bool, if◌then◌else◌, List, [], ◌∷◌,
  ◌++◌,
}
use ndp_auto_offload.Faasmspeed.Phases.Parties.{Barrier}
use ndp_auto_offload.Faasmspeed.Phases.Sums.{sum, sum-append, All-pick}
use ndp_auto_offload.Faasmspeed.Phases.{
  SharedState, Stage, running, waiting, Handle, spawned, sent, ended, Task, Main, System, Move,
  MainMove, pass, count, spawn, send, receive, lose, main_pass, open_range, store_done, close_range,
  Step, moves, waits, main_moves, main_waits,
}
use ndp_auto_offload.Faasmspeed.Phases.Guards.{level, TaskOk}
use ndp_auto_offload.Faasmspeed.Phases.Monitoring.{MainOk}
use ndp_auto_offload.Faasmspeed.Phases.Invariant.{Inv}

abbrev stage_left : Stage → ℕ
stage_left (running k) = 2 * (4 - k) + 1
stage_left (waiting k g) = 2 * (4 - k)

abbrev handle_left : Bool × Handle → ℕ
handle_left (c, spawned) = 2
handle_left (c, sent) = 1
handle_left (c, ended r) = 0

abbrev flag_left : Bool → ℕ
flag_left b = if b then 0 else 1

abbrev pub task_left : Task → ℕ
task_left t =
    stage_left t.stage + flag_left t.counted + 3 * length t.todo + sum handle_left t.handles

abbrev main_left : Main → Bool → ℕ
main_left m is_done =
    stage_left m.stage + flag_left m.opened + flag_left is_done + flag_left m.closed

abbrev pub steps_left : {B : Type 0} → System B → ℕ
steps_left s = main_left s.main s.shared.is_done + sum task_left s.tasks

module _ (t : Task) (hs ks : List (Bool × Handle)) (h h' : Bool × Handle) where
  handle_less :
      t.handles ≡ hs ++ h ∷ ks
      → handle_left h' < handle_left h
      → task_left (record t { handles = hs ++ h' ∷ ks }) < task_left t
  handle_less q less = omega (
    arith,
    ap (sum handle_left) q,
    less,
    sum-append handle_left hs (h ∷ ks),
    sum-append handle_left hs (h' ∷ ks),
  )

pass_less :
    (k g : ℕ) → level (waiting k g) ≤ 4 → stage_left (running (suc k)) < stage_left (waiting k g)
unfolding level
pass_less k g h = omega (arith, h)

-- A move takes one from what is left, and does not touch `done`.
Move-left :
    (oneshot : Bool) (gen : ℕ) (sh sh' : SharedState) (t t' : Task)
    → Move gen sh t sh' t'
    → TaskOk oneshot t
    → (task_left t' < task_left t) × (sh'.is_done ≡ sh.is_done)
Move-left oneshot gen sh sh' t t' (pass k g st h es e) ok =
    let low : level (waiting k g) ≤ 4 = rw st at ok.limit in
    rw es (rw e (omega (arith, ap stage_left st, pass_less k g low), refl))
Move-left oneshot gen sh sh' t t' (count st c es e) ok =
    rw es (rw e (omega (arith, ap flag_left c), refl))
Move-left oneshot gen sh sh' t t' (spawn c cs st q es e) ok =
    rw es (
      rw e (omega (arith, ap length q, sum-append handle_left t.handles ((c, spawned) ∷ [])), refl))
Move-left oneshot gen sh sh' t t' (send c hs ks q es e) ok =
    rw es (rw e (handle_less t hs ks (c, spawned) (c, sent) q (omega arith), refl))
Move-left oneshot gen sh sh' t t' (receive c hs ks rr q es e) ok =
    rw es (rw e (handle_less t hs ks (c, sent) (c, ended _) q (omega arith), refl))
Move-left oneshot gen sh sh' t t' (lose c hs ks er q es e) ok =
    rw es (rw e (handle_less t hs ks (c, sent) (c, ended _) q (omega arith), refl))

MainMove-left :
    (oneshot : Bool) (gen : ℕ) (sh sh' : SharedState) (m m' : Main)
    → MainMove oneshot gen sh m sh' m'
    → MainOk oneshot m
    → main_left m' sh'.is_done < main_left m sh.is_done
MainMove-left oneshot gen sh sh' m m' (main_pass k g st h es e) ok =
    let low : level (waiting k g) ≤ 4 = rw st at ok.limit in
    rw es (rw e (omega (arith, ap stage_left st, pass_less k g low)))
MainMove-left oneshot gen sh sh' m m' (open_range st q o es e) ok =
    rw es (rw e (omega (arith, ap flag_left o)))
MainMove-left oneshot gen sh sh' m m' (store_done st d es e) ok =
    rw es (rw e (omega (arith, ap flag_left d)))
MainMove-left oneshot gen sh sh' m m' (close_range st d c es e) ok =
    rw es (rw e (omega (arith, ap flag_left c)))

put_less :
    (ts us : List Task) (t t' : Task)
    → task_left t' < task_left t
    → sum task_left (ts ++ t' ∷ us) < sum task_left (ts ++ t ∷ us)
put_less ts us t t' h =
    omega (arith, h, sum-append task_left ts (t ∷ us), sum-append task_left ts (t' ∷ us))

module _ {B : Type 0} ⦃bar : Barrier B⦄ (oneshot : Bool) where
  pub Step-left : (s u : System B) → Inv oneshot s → Step oneshot s u → steps_left u < steps_left s
  Step-left s u inv (moves ts us t t' sh' q mv e) =
      let ok = (All-pick (TaskOk oneshot) ts us t (rw q at inv.tasks_ok)).1 in
      let (less, same) = Move-left oneshot _ s.shared sh' t t' mv ok in
      rw e (omega (arith, ap flag_left same, ap (sum task_left) q, put_less ts us t t' less))
  Step-left s u inv (waits ts us t k q st ready e) = rw e (
      omega (
        arith,
        ap (sum task_left) q,
        put_less ts us t (record t { stage = waiting k (bar.generation s.barrier) })
            (omega (arith, ap stage_left st)),
      ))
  Step-left s u inv (main_moves sh' m' mv e) =
      rw e (omega (arith, MainMove-left oneshot _ s.shared sh' s.main m' mv inv.main_ok))
  Step-left s u inv (main_waits k st ready e) = rw e (omega (arith, ap stage_left st))
