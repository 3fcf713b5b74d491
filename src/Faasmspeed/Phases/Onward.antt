-- ===== src/Faasmspeed/Phases/Onward.antt =====
-- A step is left in every state of the tasks of faasmspeed/src/main.rs but the end.
use ndp_auto_offload.Base.{
  sym, ap, refl, ◌≡◌, ◌≢◌, ◌⊎◌, inl, inr, arith, ℕ, zero, suc, ◌≤◌, ◌==◌, Bool, true, false,
  Bool-cases, ==_iff,
}
use ndp_auto_offload.Faasmspeed.Phases.{
  SharedState, Stage, running, waiting, Main, MainMove, main_pass, open_range, store_done,
  close_range, main_ready,
}
use ndp_auto_offload.Faasmspeed.Phases.Guards.{level}
use ndp_auto_offload.Faasmspeed.Phases.Sync.{InStep, waits_in, waits_in_own}
use ndp_auto_offload.Faasmspeed.Phases.Monitoring.{passed, MainOk}
use ndp_auto_offload.Faasmspeed.Phases.Progress.{last_barrier, MainIsFinished, ne_of}

-- What `async_main` can do.
pub data NextMain (oneshot : Bool) (gen : ℕ) (sh : SharedState) (m : Main) : Type 0 where
  main_can_move :
      (sh' : SharedState) (m' : Main) → MainMove oneshot gen sh m sh' m' → NextMain oneshot gen sh m
  main_can_wait :
      (k : ℕ) → m.stage ≡ running k → main_ready oneshot m k ≡ true → NextMain oneshot gen sh m
  main_rests : (waits_in gen m.stage ≡ 1) ⊎ MainIsFinished oneshot m → NextMain oneshot gen sh m

module _ (oneshot : Bool) (gen : ℕ) (sh : SharedState) (m : Main) where
  main_one : m.stage ≡ running 1 → MainOk oneshot m → NextMain oneshot gen sh m
  unfolding main_ready passed last_barrier
  main_one st ok = elim (Bool-cases oneshot) [
    | inl one ↦ elim (Bool-cases m.closed) [
      | inl c ↦ elim (unclosed c) [ ]
      | inr o ↦ main_rests (inr (rw one st, rw one o))
    ]
    | inr many ↦ elim (Bool-cases m.opened) [
      | inl o ↦ main_can_wait 1 st (rw many o)
      | inr o ↦ main_can_move _ _ (open_range st many o refl refl)
    ]
  ]
    where
      unclosed : m.closed ≡ true → ⊥
      unclosed c = omega (arith, ok.closes c, ap passed st)

  main_four : m.stage ≡ running 4 → MainOk oneshot m → NextMain oneshot gen sh m
  unfolding level last_barrier
  main_four st ok = elim (Bool-cases sh.is_done) [
    | inr d ↦ main_can_move _ _ (store_done st d refl refl)
    | inl d ↦ elim (Bool-cases m.closed) [
      | inr c ↦ main_can_move _ _ (close_range st d c refl refl)
      | inl c ↦ elim (Bool-cases oneshot) [
        | inl one ↦ elim (late one) [ ]
        | inr many ↦ main_rests (inr (rw many st, rw many c))
      ]
    ]
  ]
    where
      late : oneshot ≡ true → ⊥
      late one = omega (arith, ok.once one, ap level st)

  NextMain-running : (k : ℕ) → m.stage ≡ running k → MainOk oneshot m → NextMain oneshot gen sh m
  unfolding main_ready level
  NextMain-running zero st ok = main_can_wait 0 st refl
  NextMain-running (suc zero) st ok = main_one st ok
  NextMain-running (suc (suc zero)) st ok = main_can_wait 2 st refl
  NextMain-running (suc (suc (suc zero))) st ok = main_can_wait 3 st refl
  NextMain-running (suc (suc (suc (suc zero)))) st ok = main_four st ok
  NextMain-running (suc (suc (suc (suc (suc k))))) st ok = elim late [ ]
    where
      late : ⊥
      late = omega (arith, ok.limit, ap level st)

  pub NextMain-stage : (p : Stage) → m.stage ≡ p → MainOk oneshot m → NextMain oneshot gen sh m
  NextMain-stage (running k) st ok = NextMain-running k st ok
  NextMain-stage (waiting k g) st ok = elim (Bool-cases (gen == g)) [
    | inl same ↦ main_rests (inl (rw st (rw ((==_iff gen g).0 same) (waits_in_own g k))))
    | inr other ↦ main_can_move _ _ (main_pass k g st (ne_of gen g other) refl refl)
  ]

pub level_last :
    (oneshot : Bool) (l : ℕ) → l ≤ 4 → (oneshot ≡ true → l ≤ 1) → l ≤ last_barrier oneshot
unfolding last_barrier
level_last true l h k = k refl
level_last false l h k = h

-- A party that rests is at its end, or waits for the barrier; in the last generation none waits, and
-- before it none is at its end.
abbrev pub Rests : Bool → ℕ → Stage → Type 0
Rests oneshot gen p = (waits_in gen p ≡ 1) ⊎ (p ≡ running (last_barrier oneshot))

pub no_wait_last :
    (oneshot : Bool) (gen : ℕ) (p : Stage)
    → gen ≡ last_barrier oneshot
    → InStep gen p
    → level p ≤ last_barrier oneshot
    → waits_in gen p ≡ 1
    → ⊥
unfolding InStep waits_in level
no_wait_last oneshot gen (running k) at h l w = ground arith
no_wait_last oneshot gen (waiting k g) at h l w = ground (arith, h, l, w, at)

pub rest_early :
    (oneshot : Bool) (gen : ℕ) (p : Stage)
    → gen ≢ last_barrier oneshot
    → InStep gen p
    → Rests oneshot gen p
    → waits_in gen p ≡ 1
unfolding InStep
rest_early oneshot gen p other h (inl w) = w
rest_early oneshot gen p other h (inr end) = elim (other (sym (rw end at h))) [ ]
