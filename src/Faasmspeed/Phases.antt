-- ===== src/Faasmspeed/Phases.antt =====
-- The tasks of faasmspeed/src/main.rs: `async_main`, one `run_function` for each function, and the
-- tasks that these spawn for the requests, with the barrier and the counters that they share.
pub mod Parties
pub mod Sums
pub mod Kept
pub mod Sync
pub mod Lockstep
pub mod Guards
pub mod Monitoring
pub mod Invariant
pub mod Tally
pub mod Counters
pub mod Totals
pub mod Percent
pub mod Progress
pub mod Onward
pub mod NoDeadlock
pub mod Ends
pub mod Share
pub mod Liveness
use ndp_auto_offload.Base.{
  ℕ, zero, suc, ◌+◌, ◌%◌, ◌≡◌, ◌≢◌, ◌==◌, ◌&&◌, Bool, true, false, not, List, [], ◌∷◌, ◌++◌, map,
  length, if◌then◌else◌,
}
use ndp_auto_offload.Base.Words.{u64_mod}
use ndp_auto_offload.Text.{Text}
use ndp_auto_offload.Faasmspeed.Phases.Parties.{Barrier}
use ndp_auto_offload.Faasmspeed.Results.{RequestResult, Response, received, failed}

-- The atomic counters are i64, here by their pattern.
pub record SharedState : Type 0 where
  pub total_requests : ℕ
  pub sent_requests : ℕ
  pub recv_requests : ℕ
  pub ndp_requests : ℕ
  pub is_done : Bool

-- `fetch_add` wraps around in every build.
unfoldable pub fetch_add : ℕ → ℕ → ℕ
fetch_add a n = (a + n) % u64_mod

-- Where a task stands: behind `k` barriers, or in the wait for the one that follows these. A wait
-- knows the generation of the barrier in which it began.
pub data Stage : Type 0 where
  running : ℕ → Stage
  waiting : ℕ → ℕ → Stage

-- The task of one request, and what it has got.
pub data Handle : Type 0 where
  spawned : Handle
  sent : Handle
  ended : Response → Handle

-- One `run_function`. A request has its form: whether it may be offloaded.
pub record Task : Type 0 where
  pub stage : Stage
  -- whether its requests are in `total_requests`
  pub counted : Bool
  pub planned : List Bool
  pub todo : List Bool
  pub handles : List (Bool × Handle)

pub record Main : Type 0 where
  pub stage : Stage
  -- `[` and `]` are written to the monitoring hosts
  pub opened : Bool
  pub closed : Bool

pub record System (B : Type 0) : Type 0 where
  pub barrier : B
  pub shared : SharedState
  pub tasks : List Task
  pub main : Main

unfoldable pub all_ended : List (Bool × Handle) → Bool
all_ended [] = true
all_ended ((c, ended r) ∷ hs) = all_ended hs
all_ended ((c, spawned) ∷ hs) = false
all_ended ((c, sent) ∷ hs) = false

unfoldable pub no_more : List Bool → Bool
no_more [] = true
no_more (c ∷ cs) = false

-- Whether a task behind `k` barriers calls `wait`. Behind the first barrier `oneshot` returns.
unfoldable pub task_ready : Bool → Task → ℕ → Bool
task_ready oneshot t k =
    if k == 0
    then true
    else if k == 1
    then not oneshot
    else if k == 2
    then t.counted
    else if k == 3
    then no_more t.todo && all_ended t.handles
    else false

unfoldable pub main_ready : Bool → Main → ℕ → Bool
main_ready oneshot m k =
    if k == 0
    then true
    else if k == 1
    then not oneshot && m.opened
    else if k == 2
    then true
    else k == 3

-- A step of one task, or of a request that it has spawned, that does not reach the barrier.
pub data Move (generation : ℕ) (sh : SharedState) (t : Task) (sh' : SharedState) (t' : Task)
    : Type 0 where
  pass :
      (k g : ℕ)
      → t.stage ≡ waiting k g
      → generation ≢ g
      → sh' ≡ sh
      → t' ≡ record t { stage = running (suc k) }
      → Move generation sh t sh' t'
  -- `total_requests.fetch_add(total_requests)`
  count :
      t.stage ≡ running 2
      → t.counted ≡ false
      → sh' ≡ record sh { total_requests = fetch_add sh.total_requests (length t.planned) }
      → t' ≡ record t { counted = true }
      → Move generation sh t sh' t'
  -- A turn of the `for` loop.
  spawn :
      (c : Bool) (cs : List Bool)
      → t.stage ≡ running 3
      → t.todo ≡ c ∷ cs
      → sh'
        ≡ record sh { ndp_requests = if c then fetch_add sh.ndp_requests 1 else sh.ndp_requests }
      → t' ≡ record t { todo = cs; handles = t.handles ++ (c, spawned) ∷ [] }
      → Move generation sh t sh' t'
  send :
      (c : Bool) (hs ks : List (Bool × Handle))
      → t.handles ≡ hs ++ (c, spawned) ∷ ks
      → sh' ≡ record sh { sent_requests = fetch_add sh.sent_requests 1 }
      → t' ≡ record t { handles = hs ++ (c, sent) ∷ ks }
      → Move generation sh t sh' t'
  -- A dry run gives constants in place of what is measured.
  receive :
      (c : Bool) (hs ks : List (Bool × Handle)) (rr : RequestResult)
      → t.handles ≡ hs ++ (c, sent) ∷ ks
      → sh' ≡ record sh { recv_requests = fetch_add sh.recv_requests 1 }
      → t' ≡ record t { handles = hs ++ (c, ended (received rr)) ∷ ks }
      → Move generation sh t sh' t'
  lose :
      (c : Bool) (hs ks : List (Bool × Handle)) (e : Text)
      → t.handles ≡ hs ++ (c, sent) ∷ ks
      → sh' ≡ sh
      → t' ≡ record t { handles = hs ++ (c, ended (failed e)) ∷ ks }
      → Move generation sh t sh' t'

-- A step of `async_main` that does not reach the barrier.
pub data MainMove (oneshot : Bool) (generation : ℕ) (sh : SharedState) (m : Main)
    (sh' : SharedState) (m' : Main) : Type 0 where
  main_pass :
      (k g : ℕ)
      → m.stage ≡ waiting k g
      → generation ≢ g
      → sh' ≡ sh
      → m' ≡ record m { stage = running (suc k) }
      → MainMove oneshot generation sh m sh' m'
  open_range :
      m.stage ≡ running 1
      → oneshot ≡ false
      → m.opened ≡ false
      → sh' ≡ sh
      → m' ≡ record m { opened = true }
      → MainMove oneshot generation sh m sh' m'
  store_done :
      m.stage ≡ running 4
      → sh.is_done ≡ false
      → sh' ≡ record sh { is_done = true }
      → m' ≡ m
      → MainMove oneshot generation sh m sh' m'
  close_range :
      m.stage ≡ running 4
      → sh.is_done ≡ true
      → m.closed ≡ false
      → sh' ≡ sh
      → m' ≡ record m { closed = true }
      → MainMove oneshot generation sh m sh' m'

-- The steps of all tasks, in any order.
pub data Step {B : Type 0} ⦃bar : Barrier B⦄ (oneshot : Bool) (s u : System B) : Type 0 where
  moves :
      (ts us : List Task) (t t' : Task) (sh' : SharedState)
      → s.tasks ≡ ts ++ t ∷ us
      → Move (bar.generation s.barrier) s.shared t sh' t'
      → u ≡ record s { shared = sh'; tasks = ts ++ t' ∷ us }
      → Step oneshot s u
  waits :
      (ts us : List Task) (t : Task) (k : ℕ)
      → s.tasks ≡ ts ++ t ∷ us
      → t.stage ≡ running k
      → task_ready oneshot t k ≡ true
      → u ≡ record s {
        barrier = bar.arrive s.barrier;
        tasks = ts ++ record t { stage = waiting k (bar.generation s.barrier) } ∷ us;
      }
      → Step oneshot s u
  main_moves :
      (sh' : SharedState) (m' : Main)
      → MainMove oneshot (bar.generation s.barrier) s.shared s.main sh' m'
      → u ≡ record s { shared = sh'; main = m' }
      → Step oneshot s u
  main_waits :
      (k : ℕ)
      → s.main.stage ≡ running k
      → main_ready oneshot s.main k ≡ true
      → u ≡ record s {
        barrier = bar.arrive s.barrier;
        main = record s.main { stage = waiting k (bar.generation s.barrier) };
      }
      → Step oneshot s u

pub data Reach {B : Type 0} ⦃bar : Barrier B⦄ (oneshot : Bool) (s : System B)
    : System B → Type 0 where
  here : Reach oneshot s s
  next : {t u : System B} → Reach oneshot s t → Step oneshot t u → Reach oneshot s u

unfoldable pub new_task : List Bool → Task
new_task choices = record {
  stage = running 0;
  counted = false;
  planned = choices;
  todo = choices;
  handles = [];
}

-- The start of `async_main`, with the forms of the requests that each function will make, and a new
-- barrier.
unfoldable pub new_system : {B : Type 0} → B → List (List Bool) → System B
new_system b plans = record {
  barrier = b;
  shared = record {
    total_requests = 0;
    sent_requests = 0;
    recv_requests = 0;
    ndp_requests = 0;
    is_done = false;
  };
  tasks = map new_task plans;
  main = record { stage = running 0; opened = false; closed = false };
}
