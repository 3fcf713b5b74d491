-- ===== src/Faasmspeed/Phases/Counters.antt =====
-- What the counters of `SharedState` of faasmspeed/src/main.rs count, in every run.
use ndp_auto_offload.Base.{
  sym, ap, ◌∙◌, refl, ◌≡◌, arith, map, ℕ, ◌+◌, ◌%◌, Bool, List, [], ◌∷◌, ◌++◌,
}
use ndp_auto_offload.Base.Words.{u64_mod}
use ndp_auto_offload.Faasmspeed.Phases.Parties.{Barrier}
use ndp_auto_offload.Faasmspeed.Phases.Sums.{sum, sum-append, map-append}
use ndp_auto_offload.Faasmspeed.Phases.{
  SharedState, Task, Main, System, Move, MainMove, pass, count, spawn, send, receive, lose,
  main_pass, open_range, store_done, close_range, Reach, new_task, new_system,
}
use ndp_auto_offload.Faasmspeed.Phases.Tally.{
  Follows, Follow, Follow-Move, Follow-stage, counted_requests, sent_by, received_by, ndp_by,
}
use ndp_auto_offload.Faasmspeed.Phases.Kept.{Kept, Kept-Reach}

-- The counters are the sums over the tasks, modulo 2 ^ 64.
pub record Counted (sh : SharedState) (ts : List Task) : Type 0 where
  pub total : sh.total_requests ≡ sum counted_requests ts % u64_mod
  pub sent_all : sh.sent_requests ≡ sum sent_by ts % u64_mod
  pub recv_all : sh.recv_requests ≡ sum received_by ts % u64_mod
  pub ndp_all : sh.ndp_requests ≡ sum ndp_by ts % u64_mod

-- A counter that is right for the sum over all tasks.
follow_sum :
    (w : Task → ℕ) (ts us : List Task) (t t' : Task) (x x' : ℕ)
    → Follows x (w t) x' (w t')
    → x ≡ sum w (ts ++ t ∷ us) % u64_mod
    → x' ≡ sum w (ts ++ t' ∷ us) % u64_mod
follow_sum w ts us t t' x x' f h =
    let rest = sum w ts + sum w us in
    let before : sum w (ts ++ t ∷ us) ≡ rest + w t = omega (arith, sum-append w ts (t ∷ us)) in
    let after : sum w (ts ++ t' ∷ us) ≡ rest + w t' = omega (arith, sum-append w ts (t' ∷ us)) in
    rw after (f rest (rw before at h))

Counted-Follow :
    (sh sh' : SharedState) (ts us : List Task) (t t' : Task)
    → Follow sh t sh' t'
    → Counted sh (ts ++ t ∷ us)
    → Counted sh' (ts ++ t' ∷ us)
Counted-Follow sh sh' ts us t t' f c = record {
  total = follow_sum counted_requests ts us t t' _ _ f.total c.total;
  sent_all = follow_sum sent_by ts us t t' _ _ f.sent_all c.sent_all;
  recv_all = follow_sum received_by ts us t t' _ _ f.recv_all c.recv_all;
  ndp_all = follow_sum ndp_by ts us t t' _ _ f.ndp_all c.ndp_all;
}

Counted-MainMove :
    (oneshot : Bool) (gen : ℕ) (sh sh' : SharedState) (m m' : Main) (ts : List Task)
    → MainMove oneshot gen sh m sh' m'
    → Counted sh ts
    → Counted sh' ts
Counted-MainMove oneshot gen sh sh' m m' ts (main_pass k g st h es _) c = rw es c
Counted-MainMove oneshot gen sh sh' m m' ts (open_range st q o es _) c = rw es c
Counted-MainMove oneshot gen sh sh' m m' ts (store_done st d es _) c =
    rw es
      record { total = c.total; sent_all = c.sent_all; recv_all = c.recv_all; ndp_all = c.ndp_all }
Counted-MainMove oneshot gen sh sh' m m' ts (close_range st d e es _) c = rw es c

Counted-new_system :
    (plans : List (List Bool))
    → (sum counted_requests (map new_task plans) ≡ 0)
      × (sum sent_by (map new_task plans) ≡ 0)
      × (sum received_by (map new_task plans) ≡ 0)
      × (sum ndp_by (map new_task plans) ≡ 0)
unfolding new_task
Counted-new_system [] = (refl, refl, refl, refl)
Counted-new_system (p ∷ ps) =
    let (a, b, c, d) = Counted-new_system ps in
    (omega (arith, a), omega (arith, b), omega (arith, c), omega (arith, d))

Move-planned :
    (gen : ℕ) (sh sh' : SharedState) (t t' : Task) → Move gen sh t sh' t' → t'.planned ≡ t.planned
Move-planned gen sh sh' t t' (pass k g st h _ e) = rw e refl
Move-planned gen sh sh' t t' (count st c _ e) = rw e refl
Move-planned gen sh sh' t t' (spawn c cs st q _ e) = rw e refl
Move-planned gen sh sh' t t' (send c hs ks q _ e) = rw e refl
Move-planned gen sh sh' t t' (receive c hs ks rr q _ e) = rw e refl
Move-planned gen sh sh' t t' (lose c hs ks er q _ e) = rw e refl

same_plans :
    (ts us : List Task) (t t' : Task)
    → t'.planned ≡ t.planned
    → map (λ t. t.planned) (ts ++ t' ∷ us) ≡ map (λ t. t.planned) (ts ++ t ∷ us)
same_plans ts us t t' e =
    map-append (λ t. t.planned) ts (t' ∷ us)
    ∙ ap (λ p. map (λ t. t.planned) ts ++ p ∷ map (λ t. t.planned) us) e
    ∙ sym (map-append (λ t. t.planned) ts (t ∷ us))

planned-new_task : (plans : List (List Bool)) → map (λ t. t.planned) (map new_task plans) ≡ plans
unfolding new_task
planned-new_task [] = refl
planned-new_task (p ∷ ps) = ap (λ qs. p ∷ qs) (planned-new_task ps)

module _ {B : Type 0} ⦃bar : Barrier B⦄ (oneshot : Bool) where
  Kept-Counted : Kept oneshot (λ (s : System B). Counted s.shared s.tasks)
  Kept-Counted = record {
    by_move = λ b sh m ts us t t' sh' mv.
        Counted-Follow sh sh' ts us t t' (Follow-Move (bar.generation b) sh sh' t t' mv);
    by_wait = λ b sh m ts us t k st ready. Counted-Follow sh sh ts us t _ (Follow-stage sh t _);
    by_main_move =
        λ b sh m ts sh' m' mv. Counted-MainMove oneshot (bar.generation b) sh sh' m m' ts mv;
    by_main_wait = λ b sh m ts k st ready c. c;
  }

  pub Reach-Counted :
      (plans : List (List Bool)) (s : System B)
      → Reach oneshot (new_system bar.fresh plans) s
      → Counted s.shared s.tasks
  unfolding new_system
  Reach-Counted plans s r =
      let (a, b, c, d) = Counted-new_system plans in
      Kept-Reach oneshot Kept-Counted _ s r record {
        total = omega (arith, a);
        sent_all = omega (arith, b);
        recv_all = omega (arith, c);
        ndp_all = omega (arith, d);
      }

  Kept-planned :
      (plans : List (List Bool))
      → Kept oneshot (λ (s : System B). map (λ t. t.planned) s.tasks ≡ plans)
  Kept-planned plans = record {
    by_move =
        λ b sh m ts us t t' sh' mv e. same_plans ts us t t' (Move-planned _ sh sh' t t' mv) ∙ e;
    by_wait = λ b sh m ts us t k st ready e. same_plans ts us t _ refl ∙ e;
    by_main_move = λ b sh m ts sh' m' mv e. e;
    by_main_wait = λ b sh m ts k st ready e. e;
  }

  pub Reach-planned :
      (plans : List (List Bool)) (s : System B)
      → Reach oneshot (new_system bar.fresh plans) s
      → map (λ t. t.planned) s.tasks ≡ plans
  unfolding new_system
  Reach-planned plans s r = Kept-Reach oneshot (Kept-planned plans) _ s r (planned-new_task plans)
