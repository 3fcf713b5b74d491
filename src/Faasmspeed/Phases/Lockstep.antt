-- ===== src/Faasmspeed/Phases/Lockstep.antt =====
-- All tasks of faasmspeed/src/main.rs stand in the same phase, in every run.
use ndp_auto_offload.Base.{
  sym, refl, ◌≡◌, arith, map, length, length-map, suc, Bool, List, [], ◌∷◌, ◌++◌, All,
}
use mathlib.Core.Path.{subst}
use ndp_auto_offload.Faasmspeed.Phases.Parties.{Barrier}
use ndp_auto_offload.Faasmspeed.Phases.Sums.{sum, map-append}
use ndp_auto_offload.Faasmspeed.Phases.{
  SharedState, Stage, Task, Main, System, Move, MainMove, pass, count, spawn, send, receive, lose,
  main_pass, open_range, store_done, close_range, Reach, new_task, new_system,
}
use ndp_auto_offload.Faasmspeed.Phases.Kept.{Kept, Kept-Reach}
use ndp_auto_offload.Faasmspeed.Phases.Sync.{
  InStep, waits_in, Together, Together-at, Together-pass, Together-arrive,
}

-- The parties of the barrier: `async_main` and the functions' tasks.
abbrev pub stages : {B : Type 0} → System B → List Stage
stages s = s.main.stage ∷ map (λ t. t.stage) s.tasks

new_stages :
    (plans : List (List Bool))
    → All (InStep 0) (map (λ t. t.stage) (map new_task plans))
      × (sum (waits_in 0) (map (λ t. t.stage) (map new_task plans)) ≡ 0)
unfolding new_task InStep waits_in
new_stages [] = (tt, refl)
new_stages (p ∷ ps) = let (all, none) = new_stages ps in ((refl, all), omega (arith, none))

module _ {B : Type 0} ⦃bar : Barrier B⦄ where
  Together-Move :
      (b : B) (xs ys : List Stage) (sh sh' : SharedState) (t t' : Task)
      → Move (bar.generation b) sh t sh' t'
      → Together b (xs ++ t.stage ∷ ys)
      → Together b (xs ++ t'.stage ∷ ys)
  Together-Move b xs ys sh sh' t t' (pass k g st h _ e) at =
      rw e (Together-pass b xs ys k g h (subst (λ p. Together b (xs ++ p ∷ ys)) st at))
  Together-Move b xs ys sh sh' t t' (count st c _ e) at = rw e at
  Together-Move b xs ys sh sh' t t' (spawn c cs st q _ e) at = rw e at
  Together-Move b xs ys sh sh' t t' (send c hs ks q _ e) at = rw e at
  Together-Move b xs ys sh sh' t t' (receive c hs ks rr q _ e) at = rw e at
  Together-Move b xs ys sh sh' t t' (lose c hs ks er q _ e) at = rw e at

  Together-MainMove :
      (oneshot : Bool) (b : B) (ys : List Stage) (sh sh' : SharedState) (m m' : Main)
      → MainMove oneshot (bar.generation b) sh m sh' m'
      → Together b (m.stage ∷ ys)
      → Together b (m'.stage ∷ ys)
  Together-MainMove oneshot b ys sh sh' m m' (main_pass k g st h _ e) at =
      rw e (Together-pass b [] ys k g h (subst (λ p. Together b (p ∷ ys)) st at))
  Together-MainMove oneshot b ys sh sh' m m' (open_range st q o _ e) at = rw e at
  Together-MainMove oneshot b ys sh sh' m m' (store_done st d _ e) at = rw e at
  Together-MainMove oneshot b ys sh sh' m m' (close_range st d c _ e) at = rw e at

  split :
      (b : B) (m : Main) (ts us : List Task) (t : Task)
      → Together b (m.stage ∷ map (λ t. t.stage) (ts ++ t ∷ us))
      → Together b (m.stage ∷ map (λ t. t.stage) ts ++ t.stage ∷ map (λ t. t.stage) us)
  split b m ts us t =
      subst (λ ps. Together b (m.stage ∷ ps)) (map-append (λ t. t.stage) ts (t ∷ us))

  join :
      (b : B) (m : Main) (ts us : List Task) (t : Task)
      → Together b (m.stage ∷ map (λ t. t.stage) ts ++ t.stage ∷ map (λ t. t.stage) us)
      → Together b (m.stage ∷ map (λ t. t.stage) (ts ++ t ∷ us))
  join b m ts us t =
      subst (λ ps. Together b (m.stage ∷ ps)) (sym (map-append (λ t. t.stage) ts (t ∷ us)))

  Kept-Together : (oneshot : Bool) → Kept oneshot (λ (s : System B). Together s.barrier (stages s))
  Kept-Together oneshot = record {
    by_move = λ b sh m ts us t t' sh' mv at.
        let before = m.stage ∷ map (λ t. t.stage) ts in
        join b m ts us t' (Together-Move b before _ sh sh' t t' mv (split b m ts us t at));
    by_wait = λ b sh m ts us t k st ready at.
        let before = m.stage ∷ map (λ t. t.stage) ts in
        join (bar.arrive b) m ts us _ (
          Together-arrive b before _ k (
            subst (λ p. Together b (before ++ p ∷ map (λ t. t.stage) us)) st
              (split b m ts us t at)));
    by_main_move = λ b sh m ts sh' m' mv at. Together-MainMove oneshot b _ sh sh' m m' mv at;
    by_main_wait = λ b sh m ts k st ready at.
        Together-arrive b [] _ k (subst (λ p. Together b (p ∷ map (λ t. t.stage) ts)) st at);
  }

  Together-new_system :
      (plans : List (List Bool))
      → bar.size ≡ suc (length plans)
      → Together bar.fresh (stages (new_system bar.fresh plans))
  unfolding new_system InStep waits_in
  Together-new_system plans size =
      let (all, none) = new_stages plans in
      Together-at bar.fresh 0 bar.fresh-generation _ (refl, all)
        (omega (arith, none, bar.fresh-arrived))
        (omega
          (arith, size, length-map new_task plans, length-map (λ t. t.stage) (map new_task plans)))
        (omega (arith, size, bar.fresh-arrived))

  pub Reach-Together :
      (oneshot : Bool) (plans : List (List Bool))
      → bar.size ≡ suc (length plans)
      → (s : System B) → Reach oneshot (new_system bar.fresh plans) s
      → Together s.barrier (stages s)
  unfolding new_system
  Reach-Together oneshot plans size s r =
      Kept-Reach oneshot (Kept-Together oneshot) _ s r (Together-new_system plans size)
