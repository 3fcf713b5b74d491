-- ===== src/Faasmspeed/Phases/Monitoring.antt =====
-- When `async_main` of faasmspeed/src/main.rs writes to the monitoring hosts.
use ndp_auto_offload.Base.{ap, refl, ◌≡◌, arith, ℕ, ◌≤◌, Bool, true, false, List}
use mathlib.Core.Path.{subst}
use ndp_auto_offload.Faasmspeed.Phases.Parties.{Barrier}
use ndp_auto_offload.Faasmspeed.Phases.{
  SharedState, Stage, running, waiting, Main, System, MainMove, main_pass, open_range, store_done,
  close_range, new_system, main_ready,
}
use ndp_auto_offload.Faasmspeed.Phases.Kept.{Kept}
use ndp_auto_offload.Faasmspeed.Phases.Guards.{level}

-- How many barriers a party has passed.
unfoldable pub passed : Stage → ℕ
passed (running k) = k
passed (waiting k g) = k

pub record MainAt (oneshot : Bool) (p : Stage) (opened closed : Bool) : Type 0 where
  pub limit : level p ≤ 4
  pub once : oneshot ≡ true → level p ≤ 1
  pub opens : 2 ≤ level p → opened ≡ true
  pub begun : opened ≡ true → (1 ≤ passed p) × (oneshot ≡ false)
  pub closes : closed ≡ true → passed p ≡ 4

abbrev pub MainOk : Bool → Main → Type 0
MainOk oneshot m = MainAt oneshot m.stage m.opened m.closed

module _ (oneshot : Bool) where
  MainOk-MainMove :
      (gen : ℕ) (sh sh' : SharedState) (m m' : Main)
      → MainMove oneshot gen sh m sh' m'
      → MainOk oneshot m
      → MainOk oneshot m'
  unfolding level passed
  MainOk-MainMove gen sh sh' m m' (main_pass k g st h _ e) ok =
      let here = subst (λ p. MainAt oneshot p m.opened m.closed) st ok in
      rw e record {
        limit = here.limit;
        once = here.once;
        opens = here.opens;
        begun = λ o. let (one, many) = here.begun o in (omega (arith, one), many);
        closes = λ c. omega (arith, here.limit, here.closes c);
      }
  MainOk-MainMove gen sh sh' m m' (open_range st q o _ e) ok = rw e record {
    limit = ok.limit;
    once = ok.once;
    opens = λ _. refl;
    begun = λ _. (omega (arith, ap passed st), q);
    closes = ok.closes;
  }
  MainOk-MainMove gen sh sh' m m' (store_done st d _ e) ok = rw e ok
  MainOk-MainMove gen sh sh' m m' (close_range st d c _ e) ok = rw e record {
    limit = ok.limit;
    once = ok.once;
    opens = ok.opens;
    begun = ok.begun;
    closes = λ _. ap passed st;
  }

  MainOk-wait :
      (m : Main) (k g : ℕ)
      → m.stage ≡ running k
      → main_ready oneshot m k ≡ true
      → MainOk oneshot m
      → MainOk oneshot (record m { stage = waiting k g })
  unfolding level passed main_ready
  MainOk-wait m k g st ready ok =
      let here = subst (λ p. MainAt oneshot p m.opened m.closed) st ok in
      record {
        limit = ground arith;
        once = λ one. let a = here.once one in ground arith;
        opens = λ h. let a = here.opens in ground arith;
        begun = here.begun;
        closes = here.closes;
      }

  pub Kept-MainOk :
      {B : Type 0} ⦃bar : Barrier B⦄ → Kept oneshot (λ (s : System B). MainOk oneshot s.main)
  Kept-MainOk {B} ⦃bar⦄ = record {
    by_move = λ b sh m ts us t t' sh' mv ok. ok;
    by_wait = λ b sh m ts us t k st ready ok. ok;
    by_main_move = λ b sh m ts sh' m' mv ok. MainOk-MainMove (bar.generation b) sh sh' m m' mv ok;
    by_main_wait = λ b sh m ts k st ready ok. MainOk-wait m k (bar.generation b) st ready ok;
  }

pub MainOk-new_system :
    {B : Type 0} (b : B) (oneshot : Bool) (plans : List (List Bool))
    → MainOk oneshot (new_system b plans).main
unfolding new_system level passed
MainOk-new_system b oneshot plans = record {
  limit = omega arith;
  once = λ _. omega arith;
  opens = ground arith;
  begun = ground arith;
  closes = ground arith;
}
