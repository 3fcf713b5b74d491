-- ===== src/Faasmspeed/Phases/Tally.antt =====
-- What each step of a task of faasmspeed/src/main.rs adds to the counters of `SharedState`.
use ndp_auto_offload.Base.{
  ap, refl, ◌≡◌, arith, length, ℕ, suc, ◌+◌, ◌%◌, Bool, true, false, if◌then◌else◌, List, [], ◌∷◌,
  ◌++◌,
}
use ndp_auto_offload.Base.Words.{u64_mod}
use ndp_auto_offload.Faasmspeed.Results.{received, failed}
use ndp_auto_offload.Faasmspeed.Phases.Sums.{sum, sum-append}
use ndp_auto_offload.Faasmspeed.Phases.{
  SharedState, Stage, running, Handle, spawned, sent, ended, Task, Move, pass, count, spawn, send,
  receive, lose, fetch_add,
}

abbrev pub is_sent : Bool × Handle → ℕ
is_sent (c, spawned) = 0
is_sent (c, sent) = 1
is_sent (c, ended r) = 1

abbrev pub is_received : Bool × Handle → ℕ
is_received (c, ended (received rr)) = 1
is_received (c, ended (failed e)) = 0
is_received (c, spawned) = 0
is_received (c, sent) = 0

abbrev pub is_ndp : Bool → ℕ
is_ndp c = if c then 1 else 0

-- What one task has added to each counter.
abbrev pub counted_requests : Task → ℕ
counted_requests t = if t.counted then length t.planned else 0

abbrev pub sent_by : Task → ℕ
sent_by t = sum is_sent t.handles

abbrev pub received_by : Task → ℕ
received_by t = sum is_received t.handles

abbrev pub ndp_by : Task → ℕ
ndp_by t = sum (λ h. is_ndp h.0) t.handles

-- A counter that was right for a task beside `rest` is right for it again.
abbrev pub Follows : ℕ → ℕ → ℕ → ℕ → Type 0
Follows x w x' w' = (rest : ℕ) → x ≡ (rest + w) % u64_mod → x' ≡ (rest + w') % u64_mod

stays : (x w x' w' : ℕ) → x' ≡ x → w' ≡ w → Follows x w x' w'
stays x w x' w' ex ew rest h = rw ex (rw ew h)

adds : (d x w x' w' : ℕ) → x' ≡ fetch_add x d → w' ≡ w + d → Follows x w x' w'
unfolding fetch_add
adds d x w x' w' ex ew rest h = omega (arith, ex, ew, h)

-- A request that goes on, in the list of its task, and one more request.
swapped :
    (w : Bool × Handle → ℕ) (d : ℕ) (t : Task) (hs ks : List (Bool × Handle)) (h h' : Bool × Handle)
    → t.handles ≡ hs ++ h ∷ ks
    → w h' ≡ w h + d
    → sum w (hs ++ h' ∷ ks) ≡ sum w t.handles + d
swapped w d t hs ks h h' q e =
    omega (arith, ap (sum w) q, e, sum-append w hs (h ∷ ks), sum-append w hs (h' ∷ ks))

grown :
    (w : Bool × Handle → ℕ) (t : Task) (h : Bool × Handle)
    → sum w (t.handles ++ h ∷ []) ≡ sum w t.handles + w h
grown w t h = omega (arith, sum-append w t.handles (h ∷ []))

module _ (w : Bool × Handle → ℕ) (x : ℕ) (t : Task) (hs ks : List (Bool × Handle))
    (h h' : Bool × Handle) where
  same_handle :
      t.handles ≡ hs ++ h ∷ ks → w h' ≡ w h → Follows x (sum w t.handles) x (sum w (hs ++ h' ∷ ks))
  same_handle q e =
      stays _ _ _ _ refl (omega (arith, swapped w 0 t hs ks h h' q (omega (arith, e))))

  next_handle :
      t.handles ≡ hs ++ h ∷ ks
      → w h' ≡ w h + 1
      → Follows x (sum w t.handles) (fetch_add x 1) (sum w (hs ++ h' ∷ ks))
  next_handle q e = adds 1 _ _ _ _ refl (swapped w 1 t hs ks h h' q e)

same_spawn :
    (w : Bool × Handle → ℕ) (x : ℕ) (t : Task) (h : Bool × Handle)
    → w h ≡ 0
    → Follows x (sum w t.handles) x (sum w (t.handles ++ h ∷ []))
same_spawn w x t h e = stays _ _ _ _ refl (omega (arith, e, grown w t h))

ndp_spawn :
    (x : ℕ) (t : Task) (c : Bool)
    → Follows x
        (ndp_by t)
        (if c then fetch_add x 1 else x)
        (sum (λ h. is_ndp h.0) (t.handles ++ (c, spawned) ∷ []))
ndp_spawn x t true = adds 1 _ _ _ _ refl (grown (λ h. is_ndp h.0) t (true, spawned))
ndp_spawn x t false = same_spawn (λ h. is_ndp h.0) x t (false, spawned) refl

pub record Follow (sh : SharedState) (t : Task) (sh' : SharedState) (t' : Task) : Type 0 where
  pub total :
      Follows sh.total_requests (counted_requests t) sh'.total_requests (counted_requests t')
  pub sent_all : Follows sh.sent_requests (sent_by t) sh'.sent_requests (sent_by t')
  pub recv_all : Follows sh.recv_requests (received_by t) sh'.recv_requests (received_by t')
  pub ndp_all : Follows sh.ndp_requests (ndp_by t) sh'.ndp_requests (ndp_by t')

-- A barrier does not count anything.
pub Follow-stage :
    (sh : SharedState) (t : Task) (p : Stage) → Follow sh t sh (record t { stage = p })
Follow-stage sh t p = record {
  total = stays _ _ _ _ refl refl;
  sent_all = stays _ _ _ _ refl refl;
  recv_all = stays _ _ _ _ refl refl;
  ndp_all = stays _ _ _ _ refl refl;
}

pub Follow-Move :
    (gen : ℕ) (sh sh' : SharedState) (t t' : Task) → Move gen sh t sh' t' → Follow sh t sh' t'
Follow-Move gen sh sh' t t' (pass k g st h es e) =
    rw es (rw e (Follow-stage sh t (running (suc k))))
Follow-Move gen sh sh' t t' (count st c es e) = rw es (
    rw e record {
      total = adds _ _ _ _ _ refl (rw c (omega arith));
      sent_all = stays _ _ _ _ refl refl;
      recv_all = stays _ _ _ _ refl refl;
      ndp_all = stays _ _ _ _ refl refl;
    })
Follow-Move gen sh sh' t t' (spawn c cs st q es e) = rw es (
    rw e record {
      total = stays _ _ _ _ refl refl;
      sent_all = same_spawn is_sent _ t (c, spawned) refl;
      recv_all = same_spawn is_received _ t (c, spawned) refl;
      ndp_all = ndp_spawn _ t c;
    })
Follow-Move gen sh sh' t t' (send c hs ks q es e) = rw es (
    rw e record {
      total = stays _ _ _ _ refl refl;
      sent_all = next_handle is_sent _ t hs ks (c, spawned) (c, sent) q refl;
      recv_all = same_handle is_received _ t hs ks (c, spawned) (c, sent) q refl;
      ndp_all = same_handle (λ h. is_ndp h.0) _ t hs ks (c, spawned) (c, sent) q refl;
    })
Follow-Move gen sh sh' t t' (receive c hs ks rr q es e) = rw es (
    rw e record {
      total = stays _ _ _ _ refl refl;
      sent_all = same_handle is_sent _ t hs ks (c, sent) (c, ended (received rr)) q refl;
      recv_all = next_handle is_received _ t hs ks (c, sent) (c, ended (received rr)) q refl;
      ndp_all = same_handle (λ h. is_ndp h.0) _ t hs ks (c, sent) (c, ended (received rr)) q refl;
    })
Follow-Move gen sh sh' t t' (lose c hs ks er q es e) = rw es (
    rw e record {
      total = stays _ _ _ _ refl refl;
      sent_all = same_handle is_sent _ t hs ks (c, sent) (c, ended (failed er)) q refl;
      recv_all = same_handle is_received _ t hs ks (c, sent) (c, ended (failed er)) q refl;
      ndp_all = same_handle (λ h. is_ndp h.0) _ t hs ks (c, sent) (c, ended (failed er)) q refl;
    })
