-- ===== src/Tests/Phases.antt =====
-- A run of one function with two requests, one of them offloadable, for the properties of the tasks of
-- faasmspeed/src/main.rs.
use ndp_auto_offload.Base.{
  refl, ◌≡◌, ◌≢◌, arith, ℕ, suc, ◌+◌, ◌<◌, ◌≤◌, ◌==◌, Bool, true, false, if◌then◌else◌, List, [],
  ◌∷◌, All,
}
use ndp_auto_offload.Faasmspeed.Results.{RequestResult, received}
use ndp_auto_offload.Base.{◌*◌, ◌^◌, ◌/◌, ok}
use ndp_auto_offload.Base.Int.{pos}
use ndp_auto_offload.Base.Words.{debug, u64_mod}
use Prim.Native.Nat.{min}
use ndp_auto_offload.Base.{some}
use ndp_auto_offload.Base.Words.{fit_i32}
use ndp_auto_offload.Base.Int.{◌-ℤ◌, ◌+ℤ◌}
use ndp_auto_offload.Faasmspeed.Schedule.{
  Choice, Plan, generate, first, requests, next_request, reduce, choose, pick, force_ndp,
}
use ndp_auto_offload.Faasmspeed.Schedule.Fraction.{IsUsable}
use ndp_auto_offload.Faasmspeed.Phases.Share.{counters_share}
use ndp_auto_offload.Faasmspeed.Phases.Sync.{InStep}
use ndp_auto_offload.Faasmspeed.Phases.Monitoring.{passed}
use ndp_auto_offload.Faasmspeed.Phases.Invariant.{IsMonitored, Reach-InStep, Reach-IsMonitored}
use ndp_auto_offload.Faasmspeed.Phases.Tally.{received_by}
use ndp_auto_offload.Faasmspeed.Phases.Totals.{requests_of, ndp_of, counters_end}
use ndp_auto_offload.Faasmspeed.Phases.Percent.{percent, percent_range}
use ndp_auto_offload.Faasmspeed.Phases.NoDeadlock.{AllFinished}
use ndp_auto_offload.Faasmspeed.Phases.Liveness.{Reach-AllFinished}
use ndp_auto_offload.Faasmspeed.Phases.Parties.{Barrier}
use ndp_auto_offload.Faasmspeed.Phases.{
  SharedState, running, Handle, ended, Task, Main, System, pass, count, spawn, send, receive,
  main_pass, open_range, moves, waits, main_moves, main_waits, Reach, here, next, new_task,
  new_system, task_ready, main_ready, fetch_add, no_more, all_ended,
}

-- A barrier of two parties.
record Pair : Type 0 where
  arrivals : ℕ
  round : ℕ

abbrev two_arrive : Pair → Pair
two_arrive b =
    if b.arrivals == 1
    then record { arrivals = 0; round = suc b.round }
    else record { arrivals = suc b.arrivals; round = b.round }

two_early_arrived : (b : Pair) → suc b.arrivals < 2 → (two_arrive b).arrivals ≡ suc b.arrivals
two_early_arrived b h = ground arith

two_early_generation : (b : Pair) → suc b.arrivals < 2 → (two_arrive b).round ≡ b.round
two_early_generation b h = ground arith

two_last_arrived : (b : Pair) → suc b.arrivals ≡ 2 → (two_arrive b).arrivals ≡ 0
two_last_arrived b h = ground arith

two_last_generation : (b : Pair) → suc b.arrivals ≡ 2 → (two_arrive b).round ≡ suc b.round
two_last_generation b h = ground arith

instance abbrev two_parties : Barrier Pair
two_parties = record {
  size = 2;
  fresh = record { arrivals = 0; round = 0 };
  arrived = λ b. b.arrivals;
  generation = λ b. b.round;
  arrive = two_arrive;
  fresh-arrived = refl;
  fresh-generation = refl;
  early-arrived = two_early_arrived;
  early-generation = two_early_generation;
  last-arrived = two_last_arrived;
  last-generation = two_last_generation;
}

abbrev one_plan : List (List Bool)
one_plan = (true ∷ []) ∷ []

abbrev start : System Pair
start = record {
  barrier = record { arrivals = 0; round = 0 };
  shared = record {
    total_requests = 0;
    sent_requests = 0;
    recv_requests = 0;
    ndp_requests = 0;
    is_done = false;
  };
  tasks =
      record {
        stage = running 0;
        counted = false;
        planned = true ∷ [];
        todo = true ∷ [];
        handles = [];
      }
      ∷ [];
  main = record { stage = running 0; opened = false; closed = false };
}

-- A state of the two parties, behind or before their barriers.
abbrev between : ℕ → SharedState → Task → Main → System Pair
between k sh t m = record {
  barrier = record { arrivals = 0; round = k };
  shared = sh;
  tasks = record t { stage = running k } ∷ [];
  main = record m { stage = running k };
}

suc_ne : (k : ℕ) → suc k ≢ k
suc_ne k = omega arith

-- Both parties wait for barrier `k`, and wake up.
both_pass :
    (k : ℕ) (sh : SharedState) (t : Task) (m : Main)
    → task_ready false (record t { stage = running k }) k ≡ true
    → main_ready false (record m { stage = running k }) k ≡ true
    → Reach false start (between k sh t m)
    → Reach false start (between (suc k) sh t m)
both_pass k sh t m tr mr r =
    let one = next r (waits [] [] _ k refl refl tr refl) in
    let two = next one (main_waits k refl mr refl) in
    let three = next two (moves [] [] _ _ _ refl (pass k k refl (suc_ne k) refl refl) refl) in
    next three (main_moves _ _ (main_pass k k refl (suc_ne k) refl refl) refl)

abbrev result : RequestResult
result = record { us_request = 1000; us_status = 1000; num_bytes = 1024; start_time = 7 }

abbrev task_with : Bool → List Bool → List (Bool × Handle) → Task
task_with c cs hs = record {
  stage = running 0;
  counted = c;
  planned = true ∷ [];
  todo = cs;
  handles = hs;
}

abbrev main_with : Bool → Main
main_with o = record { stage = running 0; opened = o; closed = false }

abbrev done_task : Task
done_task = record {
  stage = running 4;
  counted = true;
  planned = true ∷ [];
  todo = [];
  handles = (true, ended (received result)) ∷ [];
}

abbrev done_shared : SharedState
done_shared = record {
  total_requests = 1;
  sent_requests = 1;
  recv_requests = 1;
  ndp_requests = 1;
  is_done = false;
}

abbrev at_last : System Pair
at_last =
    between 4 done_shared done_task (record { stage = running 4; opened = true; closed = false })

to_last : Reach false start at_last
unfolding task_ready main_ready fetch_add no_more all_ended
to_last =
    let r1 = both_pass 0 _ (task_with false (true ∷ []) []) (main_with false) refl refl here in
    let r2 = next r1 (main_moves _ _ (open_range refl refl refl refl refl) refl) in
    let r3 = both_pass 1 _ (task_with false (true ∷ []) []) (main_with true) refl refl r2 in
    let r4 = next r3 (moves [] [] _ _ _ refl (count refl refl refl refl) refl) in
    let r5 = both_pass 2 _ (task_with true (true ∷ []) []) (main_with true) refl refl r4 in
    let r6 = next r5 (moves [] [] _ _ _ refl (spawn true [] refl refl refl refl) refl) in
    let r7 = next r6 (moves [] [] _ _ _ refl (send true [] [] refl refl refl) refl) in
    let r8 = next r7 (moves [] [] _ _ _ refl (receive true [] [] result refl refl refl) refl) in
    both_pass 3 _ done_task (main_with true) refl refl r8

last_run : Reach false (new_system two_parties.fresh one_plan) at_last
unfolding new_system new_task
last_run = to_last

one_fits : requests_of one_plan < u64_mod
one_fits = omega arith

hundred_fits : requests_of one_plan * 100 < 2 ^ 63
hundred_fits = omega arith

last_passed : passed at_last.main.stage ≡ 4
unfolding passed
last_passed = refl

three_passed : 3 ≤ passed at_last.main.stage
unfolding passed
three_passed = omega arith

Reach-InStep_example : All (InStep 4) (running 4 ∷ running 4 ∷ [])
Reach-InStep_example = Reach-InStep false one_plan refl at_last last_run

Reach-IsMonitored_example : All (IsMonitored at_last.main) (done_task ∷ [])
Reach-IsMonitored_example = Reach-IsMonitored false one_plan refl at_last last_run

counters_end_example :
    (1 ≡ requests_of one_plan)
    × (1 ≡ requests_of one_plan)
    × (1 ≡ ndp_of one_plan)
    × (1 ≡ received_by done_task + 0)
counters_end_example = counters_end false one_plan refl one_fits at_last last_run last_passed

percent_range_example : (percent debug 1 1 ≡ ok (pos 100)) × (1 * 100 / 1 ≤ 100)
percent_range_example =
    percent_range false one_plan refl hundred_fits debug at_last at_last last_run last_run
      three_passed

Reach-AllFinished_example : (u : System Pair) × Reach false at_last u × AllFinished false u
Reach-AllFinished_example = Reach-AllFinished false one_plan refl at_last last_run

abbrev one_choice : List Choice
one_choice = (0, true) ∷ []

abbrev whole_share : Plan
whole_share = record { offload_frac_num = pos 1; offload_frac_den = pos 1; pool_len = 1 }

whole_share-IsUsable : IsUsable whole_share 1
whole_share-IsUsable = record {
  den = refl;
  positive = omega arith;
  small = omega arith;
  pool = omega arith;
}

one_generated :
    generate 2 debug whole_share 1
    ≡ some (ok (one_choice, record { ndp_var = pos 1; which_request = 0; ndp_requests = 1 }))
unfolding generate first requests next_request reduce choose pick force_ndp fit_i32 ◌-ℤ◌ ◌+ℤ◌
one_generated = refl

counters_share_example : (1 ≡ 1 * 1) × (1 ≡ 1 * min 1 1)
counters_share_example =
    counters_share 0 debug whole_share 1 1 whole_share-IsUsable (omega arith) one_choice
      (record { ndp_var = pos 1; which_request = 0; ndp_requests = 1 }) one_generated refl
      (omega arith) at_last last_run last_passed
