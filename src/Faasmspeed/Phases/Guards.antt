-- ===== src/Faasmspeed/Phases/Guards.antt =====
-- What is behind a task of faasmspeed/src/main.rs once it has passed a barrier.
use ndp_auto_offload.Base.{
  sym, ap, ◌∙◌, refl, ◌≡◌, ◌≢◌, arith, map, length, length-append, ℕ, suc, ◌<◌, ◌≤◌, Bool, true,
  false, List, [], ◌∷◌, ◌++◌, All, append_assoc,
}
use mathlib.Core.Path.{subst}
use ndp_auto_offload.Faasmspeed.Phases.Parties.{Barrier}
use ndp_auto_offload.Faasmspeed.Phases.Sums.{map-append, All-pick, All-put}
use ndp_auto_offload.Faasmspeed.Phases.{
  SharedState, Stage, running, waiting, Handle, spawned, sent, ended, Task, System, Move, pass,
  count, spawn, send, receive, lose, new_task, all_ended, no_more, task_ready,
}
use ndp_auto_offload.Faasmspeed.Phases.Kept.{Kept}

-- How many barriers a party has reached.
unfoldable pub level : Stage → ℕ
level (running k) = k
level (waiting k g) = suc k

-- The forms of the requests that are spawned.
abbrev pub forms : List (Bool × Handle) → List Bool
forms hs = map (λ h. h.0) hs

pub record OkAt (oneshot : Bool) (l : ℕ) (counted : Bool) (planned todo : List Bool)
    (hs : List (Bool × Handle)) : Type 0 where
  pub limit : l ≤ 4
  pub once : oneshot ≡ true → l ≤ 1
  pub counts : 3 ≤ l → counted ≡ true
  pub not_yet : counted ≡ true → 2 ≤ l
  pub ends : 4 ≤ l → (no_more todo ≡ true) × (all_ended hs ≡ true)
  pub starts : 0 < length hs → 3 ≤ l
  pub in_order : forms hs ++ todo ≡ planned

abbrev pub TaskOk : Bool → Task → Type 0
TaskOk oneshot t = OkAt oneshot (level t.stage) t.counted t.planned t.todo t.handles

pub open_end :
    (hs ks : List (Bool × Handle)) (c : Bool) → all_ended (hs ++ (c, spawned) ∷ ks) ≡ false
unfolding all_ended
open_end [] ks c = refl
open_end ((d, ended r) ∷ hs) ks c = open_end hs ks c
open_end ((d, spawned) ∷ hs) ks c = refl
open_end ((d, sent) ∷ hs) ks c = refl

pub sent_end : (hs ks : List (Bool × Handle)) (c : Bool) → all_ended (hs ++ (c, sent) ∷ ks) ≡ false
unfolding all_ended
sent_end [] ks c = refl
sent_end ((d, ended r) ∷ hs) ks c = sent_end hs ks c
sent_end ((d, spawned) ∷ hs) ks c = refl
sent_end ((d, sent) ∷ hs) ks c = refl

module _ {oneshot : Bool} {l : ℕ} {counted : Bool} {planned todo : List Bool} where
  -- A request goes on while not all of them have ended.
  OkAt-handle :
      (hs ks : List (Bool × Handle)) (c : Bool) (h h' : Handle)
      → all_ended (hs ++ (c, h) ∷ ks) ≡ false
      → OkAt oneshot l counted planned todo (hs ++ (c, h) ∷ ks)
      → OkAt oneshot l counted planned todo (hs ++ (c, h') ∷ ks)
  OkAt-handle hs ks c h h' still ok = record {
    limit = ok.limit;
    once = ok.once;
    counts = ok.counts;
    not_yet = ok.not_yet;
    ends = λ l4. let (_, all) = ok.ends l4 in cc;
    starts = λ _. ok.starts (omega (arith, length-append hs ((c, h) ∷ ks)));
    in_order =
        ap (λ fs. fs ++ todo) (map-append _ hs ((c, h') ∷ ks) ∙ sym (map-append _ hs ((c, h) ∷ ks)))
        ∙ ok.in_order;
  }

-- What the code in front of the barrier has done.
record Ready (oneshot : Bool) (t : Task) (k : ℕ) : Type 0 where
  most : k ≤ 3
  again : oneshot ≡ true → k ≢ 1
  third : 2 ≤ k → (3 ≤ k → t.counted ≡ true) → t.counted ≡ true
  last : 3 ≤ k → (no_more t.todo ≡ true) × (all_ended t.handles ≡ true)

task_ready-Ready :
    (oneshot : Bool) (t : Task) (k : ℕ) → task_ready oneshot t k ≡ true → Ready oneshot t k
unfolding task_ready
task_ready-Ready oneshot t k r = record {
  most = ground arith;
  again = ground arith;
  third = ground arith;
  last = λ l. ground arith;
}

spawn_forms :
    (hs : List (Bool × Handle)) (c : Bool) (cs : List Bool)
    → forms (hs ++ (c, spawned) ∷ []) ++ cs ≡ forms hs ++ c ∷ cs
spawn_forms hs c cs =
    ap (λ fs. fs ++ cs) (map-append _ hs ((c, spawned) ∷ [])) ∙ append_assoc (forms hs) (c ∷ []) cs

module _ {oneshot : Bool} where
  TaskOk-Move :
      (gen : ℕ) (sh sh' : SharedState) (t t' : Task)
      → Move gen sh t sh' t'
      → TaskOk oneshot t
      → TaskOk oneshot t'
  unfolding level
  TaskOk-Move gen sh sh' t t' (pass k g st h _ e) ok =
      rw e (subst (λ p. OkAt oneshot (level p) t.counted t.planned t.todo t.handles) st ok)
  TaskOk-Move gen sh sh' t t' (count st c _ e) ok = rw e record {
    limit = ok.limit;
    once = ok.once;
    counts = λ _. refl;
    not_yet = λ _. omega (arith, ap level st);
    ends = ok.ends;
    starts = ok.starts;
    in_order = ok.in_order;
  }
  TaskOk-Move gen sh sh' t t' (spawn c cs st q _ e) ok =
      let not_four : 4 ≤ level t.stage → ⊥ = omega (arith, ap level st) in
      rw e record {
        limit = ok.limit;
        once = ok.once;
        counts = ok.counts;
        not_yet = ok.not_yet;
        ends = λ l4. elim (not_four l4) [ ];
        starts = λ _. omega (arith, ap level st);
        in_order =
            spawn_forms t.handles c cs ∙ ap (λ l. forms t.handles ++ l) (sym q) ∙ ok.in_order;
      }
  TaskOk-Move gen sh sh' t t' (send c hs ks q _ e) ok =
      rw e (OkAt-handle hs ks c spawned sent (open_end hs ks c) (rw q at ok))
  TaskOk-Move gen sh sh' t t' (receive c hs ks rr q _ e) ok =
      rw e (OkAt-handle hs ks c sent _ (sent_end hs ks c) (rw q at ok))
  TaskOk-Move gen sh sh' t t' (lose c hs ks er q _ e) ok =
      rw e (OkAt-handle hs ks c sent _ (sent_end hs ks c) (rw q at ok))

  TaskOk-wait :
      (t : Task) (k g : ℕ)
      → t.stage ≡ running k
      → task_ready oneshot t k ≡ true
      → TaskOk oneshot t
      → TaskOk oneshot (record t { stage = waiting k g })
  unfolding level task_ready
  TaskOk-wait t k g st ready ok =
      let here = subst (λ p. OkAt oneshot (level p) t.counted t.planned t.todo t.handles) st ok in
      let facts = task_ready-Ready oneshot t k ready in
      record {
        limit = omega (arith, facts.most);
        once = λ one. omega (arith, facts.again one, here.once one);
        counts = λ l. facts.third (omega (arith, l, facts.most)) here.counts;
        not_yet = λ c. omega (arith, here.not_yet c);
        ends = λ l. facts.last (omega (arith, l, facts.most));
        starts = λ h. omega (arith, here.starts h);
        in_order = ok.in_order;
      }

pub TaskOk-new_task : (oneshot : Bool) (plan : List Bool) → TaskOk oneshot (new_task plan)
unfolding new_task level
TaskOk-new_task oneshot plan = record {
  limit = omega arith;
  once = λ _. omega arith;
  counts = λ h. ground arith;
  not_yet = λ q. ground arith;
  ends = λ h. ground arith;
  starts = omega arith;
  in_order = refl;
}

module _ {B : Type 0} ⦃bar : Barrier B⦄ where
  pub Kept-TaskOk : (oneshot : Bool) → Kept oneshot (λ (s : System B). All (TaskOk oneshot) s.tasks)
  Kept-TaskOk oneshot = record {
    by_move = λ b sh m ts us t t' sh' mv all.
        let (left, at, right) = All-pick (TaskOk oneshot) ts us t all in
        All-put (TaskOk oneshot) ts us t' left (TaskOk-Move (bar.generation b) sh sh' t t' mv at)
          right;
    by_wait = λ b sh m ts us t k st ready all.
        let (left, at, right) = All-pick (TaskOk oneshot) ts us t all in
        All-put (TaskOk oneshot) ts us _ left (TaskOk-wait t k (bar.generation b) st ready at)
          right;
    by_main_move = λ b sh m ts sh' m' mv all. all;
    by_main_wait = λ b sh m ts k st ready all. all;
  }

pub All-TaskOk :
    (oneshot : Bool) (plans : List (List Bool)) → All (TaskOk oneshot) (map new_task plans)
All-TaskOk oneshot [] = tt
All-TaskOk oneshot (p ∷ ps) = (TaskOk-new_task oneshot p, All-TaskOk oneshot ps)
