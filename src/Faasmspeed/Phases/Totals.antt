-- ===== src/Faasmspeed/Phases/Totals.antt =====
-- The counters of faasmspeed/src/main.rs against the requests that are planned.
use ndp_auto_offload.Base.{
  sym, ap, ◌∙◌, refl, ◌≡◌, arith, map, length, length-append, length-map, append-nil, ℕ, suc, ◌+◌,
  ◌<◌, ◌≤◌, Bool, true, List, [], ◌∷◌, ◌++◌, All,
}
use ndp_auto_offload.Base.Words.{u64_mod}
use ndp_auto_offload.Faasmspeed.Results.{received, failed}
use ndp_auto_offload.Faasmspeed.Phases.Parties.{Barrier}
use ndp_auto_offload.Faasmspeed.Phases.Sums.{sum, sum_mono, All-map, All-both}
use ndp_auto_offload.Faasmspeed.Phases.{
  SharedState, Handle, spawned, sent, ended, Task, System, Reach, new_system, no_more, all_ended,
}
use ndp_auto_offload.Faasmspeed.Phases.Tally.{
  is_sent, is_received, is_ndp, counted_requests, sent_by, received_by, ndp_by,
}
use ndp_auto_offload.Faasmspeed.Phases.Guards.{level, forms, TaskOk}
use ndp_auto_offload.Faasmspeed.Phases.Monitoring.{passed}
use ndp_auto_offload.Faasmspeed.Phases.Counters.{Reach-Counted, Reach-planned}
use ndp_auto_offload.Faasmspeed.Phases.Invariant.{Reach-Inv, stage_bounds, All-stages}

sum-map :
    {A C : Type 0} (w : C → ℕ) (f : A → C) (xs : List A) → sum w (map f xs) ≡ sum (λ x. w (f x)) xs
sum-map w f [] = refl
sum-map w f (x ∷ xs) = omega (arith, sum-map w f xs)

-- How many requests the plans have, and how many of them may be offloaded.
abbrev pub requests_of : List (List Bool) → ℕ
requests_of plans = sum length plans

abbrev pub ndp_of : List (List Bool) → ℕ
ndp_of plans = sum (sum is_ndp) plans

handles_le :
    (hs : List (Bool × Handle))
    → (sum is_received hs ≤ sum is_sent hs)
      × (sum is_sent hs ≤ length hs)
      × (sum (λ h. is_ndp h.0) hs ≤ length hs)
handles_le [] = omega arith
handles_le ((c, spawned) ∷ hs) = ground (arith, handles_le hs)
handles_le ((c, sent) ∷ hs) = ground (arith, handles_le hs)
handles_le ((c, ended (received rr)) ∷ hs) = ground (arith, handles_le hs)
handles_le ((c, ended (failed e)) ∷ hs) = ground (arith, handles_le hs)

sent_when_ended : (hs : List (Bool × Handle)) → all_ended hs ≡ true → sum is_sent hs ≡ length hs
unfolding all_ended
sent_when_ended [] h = refl
sent_when_ended ((c, spawned) ∷ hs) h = ground arith
sent_when_ended ((c, sent) ∷ hs) h = ground arith
sent_when_ended ((c, ended r) ∷ hs) h = omega (arith, sent_when_ended hs h)

length-forms :
    (t : Task)
    → forms t.handles ++ t.todo ≡ t.planned
    → length t.handles + length t.todo ≡ length t.planned
length-forms t h =
    omega
      (arith, ap length h, length-append (forms t.handles) t.todo, length-map (λ h. h.0) t.handles)

no_more→nil : (cs : List Bool) → no_more cs ≡ true → cs ≡ []
unfolding no_more
no_more→nil [] h = refl
no_more→nil (c ∷ cs) h = ground arith

-- What a task has counted, in the order of the counters.
task_le :
    (oneshot : Bool) (t : Task)
    → TaskOk oneshot t
    → (received_by t ≤ sent_by t)
      × (sent_by t ≤ counted_requests t)
      × (counted_requests t ≤ length t.planned)
      × (ndp_by t ≤ counted_requests t)
task_le oneshot t ok =
    let here = handles_le t.handles in
    let long = length-forms t ok.in_order in
    let begun : 0 < length t.handles → t.counted ≡ true = λ some. ok.counts (ok.starts some) in
    ground arith

-- What it has counted when it has passed its last barrier.
abbrev AllCounted : Task → Type 0
AllCounted t =
    (counted_requests t ≡ length t.planned)
    × (sent_by t ≡ length t.planned)
    × (ndp_by t ≡ sum is_ndp t.planned)

task_all : (oneshot : Bool) (t : Task) → 4 ≤ level t.stage → TaskOk oneshot t → AllCounted t
task_all oneshot t l ok =
    let (none, all) = ok.ends l in
    let same : forms t.handles ≡ t.planned =
      sym (append-nil (forms t.handles))
      ∙ ap (λ cs. forms t.handles ++ cs) (sym (no_more→nil t.todo none))
      ∙ ok.in_order in
    let long : length t.handles ≡ length t.planned =
      omega (arith, ap length same, length-map (λ h. h.0) t.handles) in
    (
      rw (ok.counts (omega (arith, l))) refl,
      sent_when_ended t.handles all ∙ long,
      sym (sum-map is_ndp (λ h. h.0) t.handles) ∙ ap (sum is_ndp) same,
    )

sum_same : (v w : Task → ℕ) (ts : List Task) → All (λ t. v t ≡ w t) ts → sum v ts ≡ sum w ts
sum_same v w [] h = refl
sum_same v w (t ∷ ts) h = omega (arith, h.0, sum_same v w ts h.1)

module _ {B : Type 0} ⦃bar : Barrier B⦄ (oneshot : Bool) (plans : List (List Bool))
    (size : bar.size ≡ suc (length plans)) (fits : requests_of plans < u64_mod) (s : System B)
    (r : Reach oneshot (new_system bar.fresh plans) s) where
  abbrev shared : SharedState
  shared = s.shared

  planned_sum : sum (λ t. length t.planned) s.tasks ≡ requests_of plans
  planned_sum =
      sym (sum-map length (λ t. t.planned) s.tasks)
      ∙ ap requests_of (Reach-planned oneshot plans s r)

  planned_ndp : sum (λ t. sum is_ndp t.planned) s.tasks ≡ ndp_of plans
  planned_ndp =
      sym (sum-map (sum is_ndp) (λ t. t.planned) s.tasks)
      ∙ ap ndp_of (Reach-planned oneshot plans s r)

  sums_le :
      (sum received_by s.tasks ≤ sum sent_by s.tasks)
      × (sum sent_by s.tasks ≤ sum counted_requests s.tasks)
      × (sum counted_requests s.tasks ≤ sum (λ t. length t.planned) s.tasks)
      × (sum ndp_by s.tasks ≤ sum counted_requests s.tasks)
  sums_le =
      let each =
        All-map _ _ s.tasks (task_le oneshot) (Reach-Inv oneshot plans size s r).tasks_ok in
      (
        sum_mono received_by sent_by s.tasks (All-map _ _ s.tasks (λ t h. h.0) each),
        sum_mono sent_by counted_requests s.tasks (All-map _ _ s.tasks (λ t h. h.1) each),
        sum_mono counted_requests _ s.tasks (All-map _ _ s.tasks (λ t h. h.2) each),
        sum_mono ndp_by counted_requests s.tasks (All-map _ _ s.tasks (λ t h. h.3) each),
      )

  -- Behind the barrier of the counts every task is in the total.
  pub total_counted : 3 ≤ passed s.main.stage → shared.total_requests ≡ requests_of plans
  total_counted three =
      let inv = Reach-Inv oneshot plans size s r in
      let main_at = stage_bounds _ s.main.stage inv.together.in_step.0 in
      let aligned = All-stages _ s.tasks inv.together.in_step.1 in
      let each =
        All-map _ (λ t. counted_requests t ≡ length t.planned) s.tasks
          (λ t h. rw (h.0.counts (omega (arith, three, main_at, stage_bounds _ t.stage h.1))) refl)
          (All-both _ _ s.tasks inv.tasks_ok aligned) in
      omega (
        arith,
        (Reach-Counted oneshot plans s r).total,
        sum_same counted_requests _ s.tasks each,
        planned_sum,
        fits,
      )

  All-late : passed s.main.stage ≡ 4 → All (λ (t : Task). 4 ≤ level t.stage) s.tasks
  All-late four =
      let aligned = (Reach-Inv oneshot plans size s r).together.in_step in
      let main_at = stage_bounds _ s.main.stage aligned.0 in
      All-map _ _ s.tasks (λ t h. omega (arith, four, main_at, stage_bounds _ t.stage h))
        (All-stages _ s.tasks aligned.1)

  all_counted : passed s.main.stage ≡ 4 → All AllCounted s.tasks
  all_counted four =
      All-map _ AllCounted s.tasks (λ t h. task_all oneshot t h.0 h.1)
        (All-both _ _ s.tasks (All-late four) (Reach-Inv oneshot plans size s r).tasks_ok)

  -- In every run, in any order, of fewer than 2 ^ 64 planned requests, the counters that are shown
  -- and reported satisfy received ≤ sent ≤ total ≤ the number of planned requests, and
  -- ndp_requests ≤ total.
  pub counters_le :
      (shared.recv_requests ≤ shared.sent_requests)
      × (shared.sent_requests ≤ shared.total_requests)
      × (shared.total_requests ≤ requests_of plans)
      × (shared.ndp_requests ≤ shared.total_requests)
  counters_le =
      let c = Reach-Counted oneshot plans s r in
      omega (arith, c.total, c.sent_all, c.recv_all, c.ndp_all, sums_le, planned_sum, fits)

  -- Of fewer than 2 ^ 64 planned requests, once `async_main` has passed the last barrier, in any order
  -- of the steps before, `total_requests` and `sent_requests` are the number of planned requests,
  -- `ndp_requests` the number of those that may be offloaded, and `recv_requests` the number of
  -- requests that ended with a result.
  pub counters_end :
      passed s.main.stage ≡ 4
      → (shared.total_requests ≡ requests_of plans)
        × (shared.sent_requests ≡ requests_of plans)
        × (shared.ndp_requests ≡ ndp_of plans)
        × (shared.recv_requests ≡ sum received_by s.tasks)
  counters_end four =
      let c = Reach-Counted oneshot plans s r in
      let each = all_counted four in
      let totals =
        sum_same counted_requests _ s.tasks (All-map AllCounted _ s.tasks (λ t h. h.0) each) in
      let sents = sum_same sent_by _ s.tasks (All-map AllCounted _ s.tasks (λ t h. h.1) each) in
      let ndps = sum_same ndp_by _ s.tasks (All-map AllCounted _ s.tasks (λ t h. h.2) each) in
      omega (
        arith, c.total, c.sent_all, c.recv_all, c.ndp_all, sums_le, totals, sents, ndps,
        planned_sum, planned_ndp, fits,
      )
